-- ===== src/Contacts/Numbers.antt =====
-- The safety number of core/crates/arveil-core/src/client.rs, which both sides read to each other.
use arveil.Base.{
  ℕ, ◌+◌, ◌*◌, ◌/◌, ◌%◌, ◌^◌, Bool, true, false, ◌&&◌, List, [], ◌∷◌, ◌++◌, Option, none, some,
  Bytes, bytes_eq, ascii, leb, if◌then◌else◌, Result, ok, err,
}
use arveil.Sql.{update_where, select}
use arveil.Sql.Tables.{at}
use arveil.Cbor.{lex_le}
use arveil.Client.{ClientError, no_identity, no_such_contact, hex_of}
use arveil.Contacts.{comparison, Text, Contacts, Contact, contact, by_identity, pinned}

abbrev pub digit : ℕ → ℕ
digit n = 48 + n % 10

-- `format!("{n:05}")` of a number below 100 000
abbrev pub five_digits : ℕ → Text
five_digits n =
    digit (n / 10000) ∷ digit (n / 1000) ∷ digit (n / 100) ∷ digit (n / 10) ∷ digit n ∷ []

-- `u32::from_be_bytes`
abbrev pub u32_from_be : ℕ → ℕ → ℕ → ℕ → ℕ
u32_from_be a b c d = a * 2 ^ 24 + b * 2 ^ 16 + c * 2 ^ 8 + d

-- The chunks of four bytes of the digest, which has 32, as groups of digits.
unfoldable pub groups : Bytes → List Text
groups (a ∷ b ∷ c ∷ d ∷ rest) = five_digits (u32_from_be a b c d % 100000) ∷ groups rest
groups _ = []

-- `join(" ")`
unfoldable pub join_spaced : List Text → Text
join_spaced [] = []
join_spaced (g ∷ []) = g
join_spaced (g ∷ h ∷ gs) = g ++ 32 ∷ join_spaced (h ∷ gs)

abbrev pub is_ascii_digit : ℕ → Bool
is_ascii_digit c = leb 48 c && leb c 57

unfoldable pub normalize_number : Text → Text
normalize_number = select is_ascii_digit

module _ (sha256 : Bytes → Bytes) where
  unfoldable pub safety_number : Bytes → Bytes → Text
  safety_number a_root b_root =
      let ordered = if lex_le a_root b_root then a_root ++ b_root else b_root ++ a_root in
      join_spaced (groups (sha256 (ascii "arveil/safety-number/v1" ++ ordered)))

  unfoldable pub number_with : Bytes → Bytes → Option Contact → Result ClientError Text
  number_with own identity none = err (no_such_contact (hex_of identity))
  number_with own identity (some c) = ok (safety_number own c.root_public)

  -- `own` is the root key that the profile stores.
  unfoldable pub safety_number_with : Option Bytes → Bytes → Contacts → Result ClientError Text
  safety_number_with none identity s = err no_identity
  safety_number_with (some own) identity s = number_with own identity (contact identity s)

  unfoldable pub compared :
      Bytes → Text → ℕ → Result ClientError Text → Contacts → Result ClientError Bool × Contacts
  compared identity number now (err x) s = (err x, s)
  compared identity number now (ok expected) s =
      if bytes_eq (normalize_number number) (normalize_number expected)
      then (ok true, update_where (at by_identity identity) (pinned comparison now) s)
      else (ok false, s)

  unfoldable pub contact_verify :
      Option Bytes → Bytes → Text → ℕ → Contacts → Result ClientError Bool × Contacts
  contact_verify own identity number now s =
      compared identity number now (safety_number_with own identity s) s
