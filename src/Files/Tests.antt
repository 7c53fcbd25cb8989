-- ===== src/Files/Tests.antt =====
-- Runs of the file names and the encryption, and the theorems at concrete inputs.
use arveil.Base.{
  ◌≡◌, refl, false, [], ◌∷◌, Option, none, some, Bytes, ascii, length, replicate, ◌==◌, ok, arith,
}
use arveil.Files.{
  FileDescriptor, FileCrypto, FileCryptoLaws, Encrypted, encode, decode, encrypt_with, decrypt,
  safe_name, is_control, u8_text,
}
use arveil.Files.Names.{safe_name_lem, starts_with_dot}
use arveil.Files.Sealing.{Describes, decrypt-encrypt_with}

abbrev unsealed : Bytes → Option Bytes
unsealed [] = none
unsealed (x ∷ m) = some m

-- A cipher that puts the length of the nonce in front.
abbrev crypto : FileCrypto
crypto = record {
  is_key = λ k. length k == 32;
  encrypt_bytes = λ key nonce aad m. some (length nonce ∷ m);
  decrypt_bytes = λ key nonce aad c. unsealed c;
  sha256 = λ bytes. bytes;
}

crypto-laws : FileCryptoLaws crypto
crypto-laws = record {
  encrypts = λ key nonce aad m k n small. (length nonce ∷ m, refl);
  decrypts = λ key nonce aad m c e. ground (arith, e);
}

numbers_are_decimal : u8_text 207 ≡ "207"
unfolding u8_text
numbers_are_decimal = refl

directories_go : safe_name (ascii "../../etc/passwd") ≡ ascii "passwd"
unfolding safe_name arveil.Files.safe_base arveil.Files.last_part arveil.Files.trim_dots
directories_go = refl

-- Dots are trimmed before control characters go, so that a control character hides them.
dots_behind_a_control : safe_name (1 ∷ 46 ∷ 46 ∷ []) ≡ 46 ∷ 46 ∷ []
unfolding safe_name arveil.Files.safe_base arveil.Files.last_part arveil.Files.trim_dots
dots_behind_a_control = refl

abbrev key : Bytes
key = replicate 32 7

abbrev nonce : Bytes
nonce = replicate 12 1

safe_name_lem_example : starts_with_dot (safe_name (ascii "a/.b")) ≡ false
safe_name_lem_example = (safe_name_lem (ascii "a/.b")).4 refl

decrypt-encrypt_with_example :
    (e : Encrypted) × (encrypt_with crypto key nonce (5 ∷ 6 ∷ []) ≡ ok e)
    × ((d : FileDescriptor) → Describes d e → decrypt crypto d e.ciphertext ≡ ok (5 ∷ 6 ∷ []))
decrypt-encrypt_with_example =
    let all =
      (decrypt-encrypt_with crypto crypto-laws key nonce (5 ∷ 6 ∷ []) refl refl).0 (omega arith) in
    (all.0, all.1, all.2)
