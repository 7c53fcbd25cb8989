-- ===== src/Contacts/Digits.antt =====
-- The digits of the safety number of core/crates/arveil-core/src/client.rs.
use arveil.Base.{
  ℕ, ◌+◌, ◌-◌, ◌*◌, ◌/◌, ◌%◌, ◌≡◌, refl, ap, ap₂, ◌∙◌, true, List, [], ◌∷◌, Bytes, length,
  length-append, arith,
}
use arveil.Sql.{select, select-append}
use arveil.Contacts.{Text}
use arveil.Contacts.Numbers.{
  digit, five_digits, groups, join_spaced, normalize_number, is_ascii_digit, safety_number,
  u32_from_be,
}

is_ascii_digit-digit : (n : ℕ) → is_ascii_digit (digit n) ≡ true
is_ascii_digit-digit n = ground arith

normalize-five_digits : (n : ℕ) → length (normalize_number (five_digits n)) ≡ 5
unfolding normalize_number
normalize-five_digits n = rw (is_ascii_digit-digit (n / 10000)) (
    rw (is_ascii_digit-digit (n / 1000)) (
      rw (is_ascii_digit-digit (n / 100))
        (rw (is_ascii_digit-digit (n / 10)) (rw (is_ascii_digit-digit n) refl))))

-- Joining with spaces keeps the digits.
join-digits :
    (g : Text) (gs : List Text)
    → length (normalize_number (join_spaced (g ∷ gs)))
      ≡ length (normalize_number g) + length (normalize_number (join_spaced gs))
unfolding join_spaced normalize_number
join-digits g [] = ground arith
join-digits g (h ∷ gs) =
    ap length (select-append is_ascii_digit g (32 ∷ join_spaced (h ∷ gs)))
    ∙ length-append (select is_ascii_digit g) (select is_ascii_digit (join_spaced (h ∷ gs)))

groups-digits :
    (n : ℕ) (d : Bytes)
    → length d ≡ 4 * n
    → length (normalize_number (join_spaced (groups d))) ≡ 5 * n
unfolding groups join_spaced normalize_number
groups-digits n [] h = omega arith
groups-digits n (a ∷ []) h = omega arith
groups-digits n (a ∷ b ∷ []) h = omega arith
groups-digits n (a ∷ b ∷ c ∷ []) h = omega arith
groups-digits n (a ∷ b ∷ c ∷ d ∷ rest) h =
    let tail = groups-digits (n - 1) rest (omega arith) in
    join-digits (five_digits (u32_from_be a b c d % 100000)) (groups rest)
    ∙ ap₂ ◌+◌ (normalize-five_digits (u32_from_be a b c d % 100000)) tail
    ∙ omega arith

-- With a digest of 32 bytes, a safety number has forty digits.
pub safety_number-digits :
    (sha256 : Bytes → Bytes) (a b : Bytes)
    → ((m : Bytes) → length (sha256 m) ≡ 32)
    → length (normalize_number (safety_number sha256 a b)) ≡ 40
unfolding safety_number
safety_number-digits sha256 a b h = groups-digits 8 _ (h _)
