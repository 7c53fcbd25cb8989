-- ===== src/Files.antt =====
-- Files of core/crates/arveil-core/src/attachments.rs: their descriptors, names and encryption. The
-- AEAD of aes_gcm is a parameter; names are lists of code points; a text of the serializer's errors
-- stays a text.
pub mod Names
pub mod Sealing
mod Tests
use Prim.Native.String.{slice, ◌++◌ as str_append}
use arveil.Base.{
  ℕ, ◌+◌, ◌*◌, ◌/◌, ◌%◌, ◌≡◌, ◌≤◌, Bool, true, false, not, ◌&&◌, ◌||◌, String, List, [], ◌∷◌,
  Option, none, some, Bytes, bytes_eq, ascii, length, any, take, is_empty, leb, ltb, ◌==◌,
  if◌then◌else◌, Result, ok, err, ◌>>=◌, map_err, refuse_if, ok_or,
}
use arveil.Sql.{select}
use arveil.Cbor.{Cbor, Serde, canonical}

abbrev pub version : ℕ
version = 1

abbrev pub max_file_bytes : ℕ
max_file_bytes = 25 * 1024 * 1024

abbrev pub aad : Bytes
aad = ascii "arveil/file/v1"

pub data AttachmentError : Type 0 where
  too_large : ℕ → AttachmentError
  random encrypt_failed hash_mismatch authentication : AttachmentError
  descriptor : String → AttachmentError

pub record FileDescriptor : Type 0 where
  pub version : ℕ
  pub blob_id : Bytes
  pub read_capability : Bytes
  pub file_key : Bytes
  pub nonce : Bytes
  pub ciphertext_hash : Bytes
  pub size : ℕ
  pub name : List ℕ
  pub mime : List ℕ

-- `{}` of a u8.
abbrev pub digit_text : ℕ → String
digit_text n = slice "0123456789" n (n + 1)

unfoldable pub u8_text : ℕ → String
u8_text n =
    if ltb n 10
    then digit_text n
    else if ltb n 100
    then str_append (digit_text (n / 10)) (digit_text (n % 10))
    else str_append (digit_text (n / 100))
        (str_append (digit_text (n / 10 % 10)) (digit_text (n % 10)))

module _ {c : Cbor} (descriptors : Serde c FileDescriptor) where
  unfoldable pub encode : FileDescriptor → Result AttachmentError Bytes
  encode d = map_err descriptor (canonical descriptors d)

  unfoldable pub checked : Result String FileDescriptor → Result AttachmentError FileDescriptor
  checked (err text) = err (descriptor text)
  checked (ok d) =
      if d.version == version
      then ok d
      else err (descriptor (str_append "unsupported version " (u8_text d.version)))

  unfoldable pub decode : Bytes → Result AttachmentError FileDescriptor
  decode bytes = checked (descriptors.from_reader bytes)

abbrev pub is_separator : ℕ → Bool
is_separator x = x == 47 || x == 92

-- `rsplit(['/', '\\']).next()`: what follows the last separator.
unfoldable pub last_part : List ℕ → List ℕ
last_part [] = []
last_part (x ∷ s) =
    let rest = last_part s in if is_separator x || any is_separator s then rest else x ∷ s

-- `trim_start_matches('.')`
unfoldable pub trim_dots : List ℕ → List ℕ
trim_dots [] = []
trim_dots (x ∷ s) = let rest = trim_dots s in if x == 46 then rest else x ∷ s

-- `char::is_control`
abbrev pub is_control : ℕ → Bool
is_control x = ltb x 32 || (leb 127 x && leb x 159)

unfoldable pub safe_base : List ℕ → List ℕ
safe_base name = take 120 (select (λ x. not (is_control x)) (trim_dots (last_part name)))

unfoldable pub safe_name : List ℕ → List ℕ
safe_name name = if is_empty (safe_base name) then ascii "file" else safe_base name

-- An encrypted file.
pub record Encrypted : Type 0 where
  pub file_key : Bytes
  pub nonce : Bytes
  pub ciphertext : Bytes
  pub ciphertext_hash : Bytes

-- AES-256-GCM and SHA-256.
pub record FileCrypto : Type 0 where
  pub is_key : Bytes → Bool
  pub encrypt_bytes : Bytes → Bytes → Bytes → Bytes → Option Bytes
  pub decrypt_bytes : Bytes → Bytes → Bytes → Bytes → Option Bytes
  pub sha256 : Bytes → Bytes

-- What the code relies on: with a key and a nonce of twelve bytes a file within the limit is
-- encrypted, and what was encrypted is decrypted with the same key, nonce and associated data.
pub record FileCryptoLaws (a : FileCrypto) : Type 0 where
  pub encrypts :
      (key nonce aad message : Bytes)
      → a.is_key key ≡ true
      → length nonce ≡ 12
      → length message ≤ max_file_bytes
      → (c : Bytes) × (a.encrypt_bytes key nonce aad message ≡ some c)
  pub decrypts :
      (key nonce aad message c : Bytes)
      → a.encrypt_bytes key nonce aad message ≡ some c
      → a.decrypt_bytes key nonce aad c ≡ some message

module _ (a : FileCrypto) where
  unfoldable pub encrypted : Bytes → Bytes → Option Bytes → Result AttachmentError Encrypted
  encrypted file_key nonce none = err encrypt_failed
  encrypted file_key nonce (some ciphertext) = ok record {
    file_key = file_key;
    nonce = nonce;
    ciphertext = ciphertext;
    ciphertext_hash = a.sha256 ciphertext;
  }

  unfoldable pub encrypt_with : Bytes → Bytes → Bytes → Result AttachmentError Encrypted
  encrypt_with file_key nonce plaintext =
      if ltb max_file_bytes (length plaintext)
      then err (too_large (length plaintext))
      else if not (length nonce == 12)
      then err encrypt_failed
      else if not (a.is_key file_key)
      then err encrypt_failed
      else encrypted file_key nonce (a.encrypt_bytes file_key nonce aad plaintext)

  -- The two draws of `getrandom` are arguments.
  unfoldable pub encrypt : Option Bytes → Option Bytes → Bytes → Result AttachmentError Encrypted
  encrypt file_key nonce plaintext = do
    k ← ok_or file_key random
    n ← ok_or nonce random
    encrypt_with k n plaintext

  unfoldable pub decrypt : FileDescriptor → Bytes → Result AttachmentError Bytes
  decrypt d ciphertext =
      if not (bytes_eq (a.sha256 ciphertext) d.ciphertext_hash)
      then err hash_mismatch
      else if not (a.is_key d.file_key)
      then err authentication
      else if not (length d.nonce == 12)
      then err authentication
      else ok_or (a.decrypt_bytes d.file_key d.nonce aad ciphertext) authentication
