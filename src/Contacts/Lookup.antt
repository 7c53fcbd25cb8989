-- ===== src/Contacts/Lookup.antt =====
-- Finding a contact of core/crates/arveil-core/src/client.rs, and comparing its safety number.
use arveil.Base.{
  ℕ, ◌≡◌, ◌≢◌, refl, ap, sym, ◌∙◌, true, false, [], ◌∷◌, some, Bytes, bytes_eq, bytes_eq_iff,
  Bool-cases, Option-cases, inl, inr, arith, ok, map,
}
use arveil.Sql.{update_where}
use arveil.Sql.Tables.{
  map_option, at, row_at, IsKeyed, row_at-order_by, row_at-update_where, row_at-key,
  update_where-IsKeyed,
}
use arveil.Cbor.{lex_le}
use arveil.Cbor.Order.{lex_le_total, lex_le_antisymm}
use arveil.Contacts.{
  comparison, Text, ContactRow, Contacts, by_identity, Contact, contact_of, seen_order, contacts,
  find_contact, contact, pinned, how_of, as_str, parse,
}
use arveil.Contacts.Numbers.{
  normalize_number, safety_number, safety_number_with, compared, contact_verify, number_with,
}

find_contact-map :
    (identity : Bytes) (s : Contacts)
    → find_contact identity (map contact_of s)
      ≡ map_option contact_of (row_at by_identity identity s)
unfolding find_contact contact_of
find_contact-map identity [] = refl
find_contact-map identity (r ∷ s) = elim (Bool-cases (bytes_eq r.identity_id identity)) [
  | inl e ↦ rw e refl
  | inr e ↦ rw e (find_contact-map identity s)
]

-- Reading all contacts in order and searching them finds what the row of the identity holds, on a
-- table whose identities are distinct.
pub contact-row_at :
    (identity : Bytes) (s : Contacts)
    → IsKeyed by_identity s
    → contact identity s ≡ map_option contact_of (row_at by_identity identity s)
unfolding contact contacts
contact-row_at identity s w =
    find_contact-map identity _
    ∙ ap (map_option contact_of) (row_at-order_by by_identity identity seen_order s w)

module _ (sha256 : Bytes → Bytes) where
  -- The two sides compute the same number from their two root keys.
  pub safety_number_comm : (a b : Bytes) → safety_number sha256 a b ≡ safety_number sha256 b a
  unfolding safety_number
  safety_number_comm a b = elim (Bool-cases (lex_le a b)) [
    | inl ab ↦ elim (Bool-cases (lex_le b a)) [
      | inl ba ↦ rw (lex_le_antisymm a b ab ba) refl
      | inr ba ↦ rw ab (rw ba refl)
    ]
    | inr ab ↦ rw ab (rw (lex_le_total a b ab) refl)
  ]

-- What a contact is after the comparison.
abbrev pub verified_contact : Contact → Contact
verified_contact c = record c { verified = true; accepted = true; verified_how = some comparison }

pinned-contact_of :
    (now : ℕ) (r : ContactRow)
    → contact_of (pinned comparison now r) ≡ verified_contact (contact_of r)
unfolding contact_of pinned how_of as_str parse
pinned-contact_of now r = refl

-- The rows of the identity, after the comparison.
pinned-contact :
    (identity : Bytes) (now : ℕ) (s : Contacts) (c : Contact)
    → IsKeyed by_identity s
    → contact identity s ≡ some c
    → contact identity (update_where (at by_identity identity) (pinned comparison now) s)
      ≡ some (verified_contact c)
unfolding pinned
pinned-contact identity now s c w h =
    let s_after = update_where (at by_identity identity) (pinned comparison now) s in
    let found = sym (contact-row_at identity s w) ∙ h in
    contact-row_at identity s_after (
      update_where-IsKeyed by_identity (at by_identity identity) (pinned comparison now) (λ r. refl)
        s w)
    ∙ ap (map_option contact_of) (
        row_at-update_where by_identity (at by_identity identity) (pinned comparison now)
          (λ r. refl) identity s)
    ∙ elim (Option-cases (row_at by_identity identity s)) [
      | inl e ↦ ground (arith, e, found)
      | inr (r, e) ↦
          let key =
            (bytes_eq_iff r.identity_id identity).1 (row_at-key by_identity identity s r e) in
          let same : some (contact_of r) ≡ some c = ap (map_option contact_of) (sym e) ∙ found in
          rw e (rw key (ap some (pinned-contact_of now r) ∙ ap (map_option verified_contact) same))
    ]

with_contact :
    (sha256 : Bytes → Bytes) (own identity : Bytes) (s : Contacts) (c : Contact)
    → contact identity s ≡ some c
    → safety_number_with sha256 (some own) identity s ≡ ok (safety_number sha256 own c.root_public)
unfolding safety_number_with number_with
with_contact sha256 own identity s c h = rw h refl

-- Verifying a contact: the number that the other side computes from the two root keys, however it
-- is written down, is accepted, and the contact is then verified by comparison and chosen; a text
-- with other digits is refused, and nothing changes. The table's identities are distinct, and the
-- contact is in it.
pub contact_verify_lem :
    (sha256 : Bytes → Bytes) (own identity : Bytes) (number : Text) (now : ℕ) (s : Contacts)
    (c : Contact)
    → IsKeyed by_identity s
    → contact identity s ≡ some c
    → (normalize_number number ≡ normalize_number (safety_number sha256 c.root_public own)
        → ((contact_verify sha256 (some own) identity number now s).0 ≡ ok true)
          × (contact identity (contact_verify sha256 (some own) identity number now s).1
              ≡ some (verified_contact c)))
      × (normalize_number number ≢ normalize_number (safety_number sha256 c.root_public own)
          → contact_verify sha256 (some own) identity number now s ≡ (ok false, s))
unfolding contact_verify compared
contact_verify_lem sha256 own identity number now s c w h =
    let order = ap normalize_number (safety_number_comm sha256 own c.root_public) in
    let expected = with_contact sha256 own identity s c h in
    (
      λ same.
          let test = (bytes_eq_iff _ _).1 (same ∙ sym order) in
          rw expected (rw test (refl, pinned-contact identity now s c w h)),
      λ differs.
          elim (Bool-cases (
            bytes_eq (normalize_number number)
              (normalize_number (safety_number sha256 own c.root_public)))) [
                | inl e ↦ absurd (differs ((bytes_eq_iff _ _).0 e ∙ order))
                | inr e ↦ rw expected (rw e refl)
              ],
    )
