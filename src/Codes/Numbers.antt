-- ===== src/Codes/Numbers.antt =====
-- The numbers that two screens show, in core/crates/arveil-core/src/pairing.rs.
use arveil.Base.{
  Bool, true, ◌-◌, ◌&&◌, leb, ◌==◌, ◌^◌, if◌then◌else◌, Option, All, take, drop, ◌∙◌, false, ℕ, ◌+◌,
  ◌*◌, ◌/◌, ◌%◌, ◌<◌, ◌≡◌, ◌↔◌, refl, ap, [], ◌∷◌, ◌++◌, some, Bytes, ascii, length, arith,
}
use arveil.Codes.{Text, four_digits, sas_text, sas_number, shown, short_authentication_string}

-- The digits of a number below 10000 give it back.
four_digits_inj : (m n : ℕ) → m < 10000 → n < 10000 → four_digits m ≡ four_digits n → m ≡ n
unfolding four_digits
four_digits_inj m n h k e =
    let a : m / 1000 ≡ n / 1000 = ground (arith, e) in
    let b : m / 100 % 10 ≡ n / 100 % 10 = ground (arith, e) in
    let c : m / 10 % 10 ≡ n / 10 % 10 = ground (arith, e) in
    let d : m % 10 ≡ n % 10 = ground (arith, e) in omega (arith, a, b, c, d)

front :
    (m n q r : ℕ)
    → four_digits m ++ 45 ∷ four_digits q ≡ four_digits n ++ 45 ∷ four_digits r
    → four_digits m ≡ four_digits n
unfolding four_digits
front m n q r e = ground (arith, e)

back :
    (m n q r : ℕ)
    → four_digits m ++ 45 ∷ four_digits q ≡ four_digits n ++ 45 ∷ four_digits r
    → four_digits q ≡ four_digits r
unfolding four_digits
back m n q r e = ground (arith, e)

sas_text_inj : (m n : ℕ) → m < 100000000 → n < 100000000 → sas_text m ≡ sas_text n → m ≡ n
unfolding sas_text
sas_text_inj m n h k e =
    let high : m / 10000 ≡ n / 10000 =
      four_digits_inj (m / 10000) (n / 10000) (omega arith) (omega arith)
        (front (m / 10000) (n / 10000) (m % 10000) (n % 10000) e) in
    let low : m % 10000 ≡ n % 10000 =
      four_digits_inj (m % 10000) (n % 10000) (omega arith) (omega arith)
        (back (m / 10000) (n / 10000) (m % 10000) (n % 10000) e) in
    omega (arith, high, low)

-- `0` to `9`.
abbrev pub is_digit : ℕ → Bool
is_digit c = leb 48 c && leb c 57

-- A decimal number as a person reads it, the dash left out, after `n`.
abbrev pub reading : ℕ → Text → ℕ
reading n [] = n
reading n (c ∷ t) = if c == 45 then reading n t else reading (n * 10 + (c - 48)) t

-- A text of four digits, a dash and four digits, which reads as the big-endian number of the first
-- four bytes of the digest modulo 10^8.
pub record IsShown (digest : Bytes) (o : Option Text) : Type 0 where
  pub text : Text
  pub shown_is : o ≡ some text
  pub size : length text ≡ 9
  pub front_digits : All (λ c. is_digit c ≡ true) (take 4 text)
  pub dash : take 1 (drop 4 text) ≡ 45 ∷ []
  pub back_digits : All (λ c. is_digit c ≡ true) (drop 5 text)
  pub a : ℕ
  pub b : ℕ
  pub c : ℕ
  pub d : ℕ
  pub rest : Bytes
  pub digest_is : digest ≡ a ∷ b ∷ c ∷ d ∷ rest
  pub reads : reading 0 text ≡ (a * 2 ^ 24 + b * 2 ^ 16 + c * 2 ^ 8 + d) % 10 ^ 8

digit_is : (d : ℕ) → d < 10 → is_digit (48 + d) ≡ true
digit_is d h = ground arith

four_digits-All : (n : ℕ) → n < 10000 → All (λ c. is_digit c ≡ true) (four_digits n)
unfolding four_digits
four_digits-All n h = (
  digit_is (n / 1000) (omega arith),
  (
    digit_is (n / 100 % 10) (omega arith),
    (digit_is (n / 10 % 10) (omega arith), (digit_is (n % 10) (omega arith), tt)),
  ),
)

reading-digit : (n d : ℕ) (t : Text) → d < 10 → reading n ((48 + d) ∷ t) ≡ reading (n * 10 + d) t
reading-digit n d t h =
    let other : (48 + d == 45) ≡ false = ground arith in
    rw other (ap (λ x. reading (n * 10 + x) t) (omega arith))

reading-four_digits :
    (n m : ℕ) (t : Text) → m < 10000 → reading n (four_digits m ++ t) ≡ reading (n * 10000 + m) t
unfolding four_digits
reading-four_digits n m t h =
    let a = m / 1000 in
    let b = m / 100 % 10 in
    let c = m / 10 % 10 in
    let d = m % 10 in
    reading-digit n a ((48 + b) ∷ (48 + c) ∷ (48 + d) ∷ t) (omega arith)
    ∙ reading-digit (n * 10 + a) b ((48 + c) ∷ (48 + d) ∷ t) (omega arith)
    ∙ reading-digit ((n * 10 + a) * 10 + b) c ((48 + d) ∷ t) (omega arith)
    ∙ reading-digit (((n * 10 + a) * 10 + b) * 10 + c) d t (omega arith)
    ∙ ap (λ x. reading x t) (omega arith)

-- A number below 10^8 is read back from what a screen shows.
reading-sas_text : (n : ℕ) → n < 100000000 → reading 0 (sas_text n) ≡ n
unfolding sas_text four_digits
reading-sas_text n h =
    reading-four_digits 0 (n / 10000) (45 ∷ four_digits (n % 10000)) (omega arith)
    ∙ reading-four_digits (0 * 10000 + n / 10000) (n % 10000) [] (omega arith)
    ∙ omega arith

shown-IsShown :
    (a b c d : ℕ) (rest : Bytes)
    → IsShown (a ∷ b ∷ c ∷ d ∷ rest) (shown (sas_number (a ∷ b ∷ c ∷ d ∷ rest)))
unfolding sas_number sas_text four_digits
shown-IsShown a b c d rest =
    let n = (((a * 256 + b) * 256 + c) * 256 + d) % 100000000 in
    let small : n < 100000000 = ground arith in
    record {
      text = sas_text n;
      shown_is = refl;
      size = refl;
      front_digits = four_digits-All (n / 10000) (omega (arith, small));
      dash = refl;
      back_digits = four_digits-All (n % 10000) (omega arith);
      a = a;
      b = b;
      c = c;
      d = d;
      rest = rest;
      digest_is = refl;
      reads = reading-sas_text n small ∙ ap (λ x. x % 100000000) (omega arith);
    }

digest-IsShown : (d : Bytes) → length d ≡ 32 → IsShown d (shown (sas_number d))
digest-IsShown (a ∷ b ∷ c ∷ x ∷ d) h = shown-IsShown a b c x d
digest-IsShown (a ∷ b ∷ c ∷ []) h = absurd (ground (arith, h))
digest-IsShown (a ∷ b ∷ []) h = absurd (ground (arith, h))
digest-IsShown (a ∷ []) h = absurd (ground (arith, h))
digest-IsShown [] h = absurd (ground (arith, h))

-- A digest has a number, below 10^8.
digest-number : (d : Bytes) → length d ≡ 32 → (n : ℕ) × (sas_number d ≡ some n) × (n < 100000000)
unfolding sas_number
digest-number (a ∷ b ∷ c ∷ x ∷ d) h =
    ((((a * 256 + b) * 256 + c) * 256 + x) % 100000000, refl, ground arith)
digest-number (a ∷ b ∷ c ∷ []) h = absurd (ground (arith, h))
digest-number (a ∷ b ∷ []) h = absurd (ground (arith, h))
digest-number (a ∷ []) h = absurd (ground (arith, h))
digest-number [] h = absurd (ground (arith, h))

abbrev digest : (Bytes → Bytes) → Bytes → Bytes
digest sha256 hash = sha256 (ascii "arveil/pair-sas/v1" ++ hash)

-- A screen shows four digits, a dash and four digits, which read as the big-endian number of the
-- first four bytes of the digest of the handshake modulo 10^8, and two screens show the same text
-- exactly if these numbers of their digests agree. SHA-256 has 32 bytes.
pub short_authentication_string_lem :
    (sha256 : Bytes → Bytes) (here there : Bytes)
    → ((m : Bytes) → length (sha256 m) ≡ 32)
    → IsShown
        (sha256 (ascii "arveil/pair-sas/v1" ++ here))
        (short_authentication_string sha256 here)
      × ((short_authentication_string sha256 here ≡ short_authentication_string sha256 there) ↔ (
          sas_number (sha256 (ascii "arveil/pair-sas/v1" ++ here))
          ≡ sas_number (sha256 (ascii "arveil/pair-sas/v1" ++ there))))
unfolding short_authentication_string
short_authentication_string_lem sha256 here there len =
    let (m, e, b) = digest-number (digest sha256 here) (len _) in
    let (n, f, c) = digest-number (digest sha256 there) (len _) in
    (
      digest-IsShown (digest sha256 here) (len _),
      rw e (
          rw f (
            λ g.
                let same : sas_text m ≡ sas_text n = ground (arith, g) in
                ap some (sas_text_inj m n b c same),
            λ g. ap shown g,
          )),
    )
