-- ===== src/Codes.antt =====
-- The code that a new device shows, and the number that both screens show, of
-- core/crates/arveil-core/src/pairing.rs. A text is its code points. The crate hex is a parameter, and
-- so is SHA-256.
pub mod RoundTrip
pub mod Numbers
mod Tests
use arveil.Base.{
  ℕ, ◌+◌, ◌*◌, ◌/◌, ◌%◌, ◌<◌, ◌≡◌, Bool, true, false, not, ◌&&◌, ◌||◌, String, List, [], ◌∷◌, ◌++◌,
  Option, none, some, Bytes, ascii, bytes_eq, All, leb, ◌==◌, if◌then◌else◌, Result, ok, err, ok_or,
  refuse_if, ◌>>=◌, ◌>>◌,
}
use arveil.Contacts.{trim}

abbrev pub Text : Type 0
Text = List ℕ

abbrev pub code_prefix : Text
code_prefix = ascii "arveil-pair:v1"

pub data PairingError : Type 0 where
  not_a_code : PairingError
  bad_field : String → PairingError
  wrong_realm : Text → Text → PairingError

pub record PairingCode : Type 0 where
  pub realm_id : Bytes
  pub pair_id : Bytes
  pub capability : Bytes
  pub static_public : Bytes

pub record Hex : Type 0 where
  pub encode : Bytes → Text
  pub decode : Text → Option Bytes

abbrev pub is_hex_digit : ℕ → Bool
is_hex_digit c = (leb 48 c && leb c 57) || (leb 97 c && leb c 102)

abbrev pub AreBytes : Bytes → Type 0
AreBytes = All (λ x. x < 256)

-- What is documented of the crate: lowercase digits, which decode to the bytes.
pub record HexLaws (h : Hex) : Type 0 where
  pub digits : (b : Bytes) → All (λ c. is_hex_digit c ≡ true) (h.encode b)
  pub reads_back : (b : Bytes) → AreBytes b → h.decode (h.encode b) ≡ some b

-- `split(':')`
abbrev pub glue : ℕ → List Text → List Text
glue c [] = (c ∷ []) ∷ []
glue c (part ∷ parts) = (c ∷ part) ∷ parts

unfoldable pub split : Text → List Text
split [] = [] ∷ []
split (c ∷ s) = let parts = split s in if c == 58 then [] ∷ parts else glue c parts

module _ (h : Hex) where
  unfoldable pub to_string_code : PairingCode → Text
  to_string_code c =
      code_prefix
      ++ 58
        ∷ (h.encode c.realm_id
            ++ 58
              ∷ (h.encode c.pair_id
                  ++ 58 ∷ (h.encode c.capability ++ 58 ∷ h.encode c.static_public)))

  abbrev pub field : Text → String → Result PairingError Bytes
  field part name = ok_or (h.decode part) (bad_field name)

  unfoldable pub parse_parts : List Text → Result PairingError PairingCode
  parse_parts (kind ∷ version ∷ realm ∷ pair ∷ secret ∷ key ∷ []) = do
    refuse_if (not (bytes_eq kind (ascii "arveil-pair")) || not (bytes_eq version (ascii "v1")))
        not_a_code
    realm_id ← field realm "realm id"
    pair_id ← field pair "pair id"
    capability ← field secret "capability"
    static_public ← field key "static key"
    ok (record {
      realm_id = realm_id;
      pair_id = pair_id;
      capability = capability;
      static_public = static_public;
    })
  parse_parts _ = err not_a_code

  unfoldable pub parse : Text → Result PairingError PairingCode
  parse s = parse_parts (split (trim s))

  unfoldable pub check_realm : PairingCode → Bytes → Result PairingError (Unit {0})
  check_realm c known =
      if not (bytes_eq c.realm_id known)
      then err (wrong_realm (h.encode c.realm_id) (h.encode known))
      else ok tt

-- `{:04}` below 10000
unfoldable pub four_digits : ℕ → Text
four_digits n = (48 + n / 1000) ∷ (48 + n / 100 % 10) ∷ (48 + n / 10 % 10) ∷ (48 + n % 10) ∷ []

unfoldable pub sas_text : ℕ → Text
sas_text n = four_digits (n / 10000) ++ 45 ∷ four_digits (n % 10000)

-- `none` where the source indexes past the end.
unfoldable pub sas_number : Bytes → Option ℕ
sas_number (a ∷ b ∷ c ∷ d ∷ _) = some ((((a * 256 + b) * 256 + c) * 256 + d) % 100000000)
sas_number _ = none

abbrev pub shown : Option ℕ → Option Text
shown none = none
shown (some n) = some (sas_text n)

unfoldable pub short_authentication_string : (Bytes → Bytes) → Bytes → Option Text
short_authentication_string sha256 handshake_hash =
    shown (sas_number (sha256 (ascii "arveil/pair-sas/v1" ++ handshake_hash)))
