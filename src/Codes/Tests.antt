-- ===== src/Codes/Tests.antt =====
-- Runs of the pairing codes, and the theorems at concrete inputs.
use arveil.Base.{
  ℕ, ◌+◌, ◌-◌, ◌*◌, ◌/◌, ◌%◌, ◌<◌, ◌≡◌, ◌↔◌, refl, ap, Bool, true, false, ◌&&◌, List, [], ◌∷◌, ◌++◌,
  Option, none, some, Bytes, All, ascii, length, ltb, leb, replicate, if◌then◌else◌, arith, ok, err,
}
use arveil.Codes.{
  Text, PairingCode, Hex, HexLaws, AreBytes, is_hex_digit, to_string_code, parse, check_realm,
  not_a_code, bad_field, sas_number, short_authentication_string,
}
use arveil.Codes.RoundTrip.{parse-to_string_code}
use arveil.Codes.Numbers.{IsShown, short_authentication_string_lem}

abbrev hex_char : ℕ → ℕ
hex_char d = if ltb d 10 then 48 + d else 87 + d

abbrev value : ℕ → ℕ
value c = if leb c 57 then c - 48 else c - 87

abbrev to_hex : Bytes → Text
to_hex [] = []
to_hex (x ∷ b) = hex_char (x / 16 % 16) ∷ hex_char (x % 16) ∷ to_hex b

abbrev put_byte : ℕ → Option Bytes → Option Bytes
put_byte x none = none
put_byte x (some b) = some (x ∷ b)

abbrev from_hex : Text → Option Bytes
from_hex [] = some []
from_hex (a ∷ []) = none
from_hex (a ∷ b ∷ s) =
    let rest = from_hex s in
    if is_hex_digit a && is_hex_digit b then put_byte (value a * 16 + value b) rest else none

abbrev hex : Hex
hex = record { encode = to_hex; decode = from_hex }

hex_char-is_hex_digit : (d : ℕ) → d < 16 → is_hex_digit (hex_char d) ≡ true
hex_char-is_hex_digit d h = ground arith

value-hex_char : (d : ℕ) → d < 16 → value (hex_char d) ≡ d
value-hex_char d h = ground arith

to_hex-digits : (b : Bytes) → All (λ c. is_hex_digit c ≡ true) (to_hex b)
to_hex-digits [] = tt
to_hex-digits (x ∷ b) = (
  hex_char-is_hex_digit (x / 16 % 16) (omega arith),
  (hex_char-is_hex_digit (x % 16) (omega arith), to_hex-digits b),
)

from_hex-to_hex : (b : Bytes) → AreBytes b → from_hex (to_hex b) ≡ some b
from_hex-to_hex [] h = refl
from_hex-to_hex (x ∷ b) h = rw (hex_char-is_hex_digit (x / 16 % 16) (omega arith)) (
    rw (hex_char-is_hex_digit (x % 16) (omega arith)) (
      rw (value-hex_char (x / 16 % 16) (omega arith)) (
        rw (value-hex_char (x % 16) (omega arith))
          (rw (from_hex-to_hex b h.1) (ap (λ y. some (y ∷ b)) (omega (arith, h.0)))))))

hex-laws : HexLaws hex
hex-laws = record { digits = to_hex-digits; reads_back = from_hex-to_hex }

abbrev shown_code : PairingCode
shown_code = record {
  realm_id = 1 ∷ 171 ∷ [];
  pair_id = 2 ∷ [];
  capability = [];
  static_public = 255 ∷ [];
}

its_text : to_string_code hex shown_code ≡ ascii "arveil-pair:v1:01ab:02::ff"
unfolding to_string_code
its_text = refl

another_version_is_refused : parse hex (ascii "arveil-pair:v2:01:02:03:04") ≡ err not_a_code
unfolding parse arveil.Codes.split arveil.Codes.parse_parts arveil.Contacts.trim_start
    arveil.Contacts.trim_end arveil.Base.bytes_eq
another_version_is_refused = refl

half_a_byte_is_refused : parse hex (ascii "arveil-pair:v1:01:0:03:04") ≡ err (bad_field "pair id")
unfolding parse arveil.Codes.split arveil.Codes.parse_parts arveil.Contacts.trim_start
    arveil.Contacts.trim_end arveil.Base.bytes_eq
half_a_byte_is_refused = refl

parse-to_string_code_example :
    (parse hex (ascii " " ++ (to_string_code hex shown_code ++ (10 ∷ []))) ≡ ok shown_code)
    × ((check_realm hex shown_code (1 ∷ 171 ∷ []) ≡ ok tt) ↔ (shown_code.realm_id ≡ 1 ∷ 171 ∷ []))
parse-to_string_code_example =
    parse-to_string_code hex hex-laws shown_code (ascii " ") (10 ∷ []) (1 ∷ 171 ∷ [])
      ((omega arith, (omega arith, tt)), (omega arith, tt), tt, (omega arith, tt)) (refl, tt)
      (refl, tt)

-- A digest of 32 bytes that tells the messages of this file apart.
abbrev digest : Bytes → Bytes
digest m = length m ∷ replicate 31 0

short_authentication_string_lem_example :
    IsShown
      (digest (ascii "arveil/pair-sas/v1" ++ (1 ∷ [])))
      (short_authentication_string digest (1 ∷ []))
    × ((short_authentication_string digest (1 ∷ [])
          ≡ short_authentication_string digest (1 ∷ 2 ∷ []))
        ↔ (sas_number (digest (ascii "arveil/pair-sas/v1" ++ (1 ∷ [])))
            ≡ sas_number (digest (ascii "arveil/pair-sas/v1" ++ (1 ∷ 2 ∷ [])))))
short_authentication_string_lem_example =
    short_authentication_string_lem digest (1 ∷ []) (1 ∷ 2 ∷ []) (λ m. refl)

its_number : short_authentication_string digest [] ≡ some (ascii "0198-9888")
unfolding short_authentication_string sas_number arveil.Codes.sas_text arveil.Codes.four_digits
its_number = refl
