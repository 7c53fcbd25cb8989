-- ===== src/Contacts/Tests.antt =====
-- Runs of the contacts, and the theorems at concrete inputs.
use arveil.Base.{
  ℕ, ◌≡◌, ◌≢◌, refl, Bool, true, false, List, [], ◌∷◌, ◌++◌, Option, none, some, Bytes, bytes_eq,
  length, replicate, length-replicate, arith, ok, err,
}
use arveil.Client.{contact_root_mismatch, hex_of}
use arveil.Contacts.{
  ContactRow, Contacts, Contact, contact_of, by_identity, contact, contact_seen, trim, Text,
  new_contact, pinned, comparison,
}
use arveil.Contacts.Pinned.{see, rename, accept, IsPinned, run, verified_root_stays}

abbrev ada : Bytes
ada = 1 ∷ 171 ∷ []

abbrev ada_root : Bytes
ada_root = 9 ∷ 9 ∷ []

-- A digest of 32 bytes that depends on the length of the message.
abbrev digest : Bytes → Bytes
digest m = replicate 32 (length m)

abbrev met : Contacts
met = new_contact ada ada_root 5 ∷ []

-- The row of Ada after a comparison at time 8.
abbrev compared_row : ContactRow
compared_row = record {
  identity_id = ada;
  root_public = ada_root;
  name = none;
  verified = 1;
  verified_at = some 8;
  first_seen = 5;
  accepted = some 1;
  verified_how = some "comparison";
}

hex_is_lowercase : hex_of ada ≡ 48 ∷ 49 ∷ 97 ∷ 98 ∷ []
unfolding hex_of
hex_is_lowercase = refl

blanks_are_trimmed : trim (32 ∷ 97 ∷ 32 ∷ 98 ∷ 10 ∷ []) ≡ 97 ∷ 32 ∷ 98 ∷ []
unfolding arveil.Contacts.trim_start arveil.Contacts.trim_end
blanks_are_trimmed = refl

met-contact : contact ada met ≡ some (contact_of (new_contact ada ada_root 5))
unfolding contact arveil.Contacts.contacts arveil.Contacts.find_contact contact_of
    arveil.Base.bytes_eq
met-contact = refl

verified_root_stays_example :
    IsPinned ada ada_root
      (run digest (rename ada (97 ∷ []) ∷ see ada (7 ∷ []) 9 ∷ accept ada ∷ []) (compared_row ∷ []))
    × (bytes_eq ada_root (7 ∷ []) ≡ false
        → contact_seen ada (7 ∷ []) 10 (
            run digest
              (rename ada (97 ∷ []) ∷ see ada (7 ∷ []) 9 ∷ accept ada ∷ [])
              (compared_row ∷ []))
          ≡ (
            err (contact_root_mismatch (hex_of ada)),
            run digest
                (rename ada (97 ∷ []) ∷ see ada (7 ∷ []) 9 ∷ accept ada ∷ [])
                (compared_row ∷ []),
          ))
unfolding arveil.Base.bytes_eq
verified_root_stays_example =
    verified_root_stays digest ada ada_root (7 ∷ []) 10
      (rename ada (97 ∷ []) ∷ see ada (7 ∷ []) 9 ∷ accept ada ∷ []) (compared_row ∷ [])
      (compared_row, refl, refl, refl)
