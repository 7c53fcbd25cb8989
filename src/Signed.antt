-- ===== src/Signed.antt =====
-- core/crates/arveil-core/src/signed.rs, the signed-object envelope. The crates ed25519-dalek and
-- ciborium stand outside, as the fields of `Platform`; a `str` is its UTF-8 bytes.
pub mod Laws
pub mod Input
mod Tests
use arveil.Base.{
  ℕ, ◌/◌, ◌%◌, ◌≡◌, ◌↔◌, Bool, true, false, not, String, List, [], ◌∷◌, ◌++◌, Option, some, Bytes,
  bytes_eq, length, ◌==◌, Result, ok, err, map_err, refuse_if, ◌>>=◌, ◌>>◌,
}
use arveil.Cbor.{Cbor, Serde, canonical, ReadsBack}

pub data SignedError : Type 0 where
  encode decode : String → SignedError
  wrong_context : Bytes → Bytes → SignedError
  bad_signature : SignedError

pub record SignedObject : Type 0 where
  pub context : Bytes
  pub body : Bytes
  pub signature : Bytes

-- `&(n as u16).to_be_bytes()`
unfoldable pub u16_be : ℕ → Bytes
u16_be n = (n % 65536 / 256) ∷ (n % 256) ∷ []

unfoldable pub signing_input : Bytes → Bytes → Bytes
signing_input context body = u16_be (length context) ++ (context ++ body)

-- Ed25519 keys and signatures, SHA-256, the CBOR writer, and serde on `SignedObject`.
pub record Platform : Type 1 where
  pub cbor : Cbor
  pub objects : Serde cbor SignedObject
  pub SigningKey : Type 0
  pub VerifyingKey : Type 0
  pub verifying_key : SigningKey → VerifyingKey
  pub sign_bytes : SigningKey → Bytes → Bytes
  pub verify_strict : VerifyingKey → Bytes → Bytes → Bool
  pub key_from_bytes : Bytes → Option VerifyingKey
  pub as_bytes : VerifyingKey → Bytes
  pub key_eq : VerifyingKey → VerifyingKey → Bool
  pub sha256 : Bytes → Bytes

-- What the code relies on: a signature has 64 bytes and verifies under its own key, a key has 32
-- bytes and is read back from them, keys compare by value, and a signed object reads back.
pub record PlatformLaws (p : Platform) : Type 0 where
  pub sign_length : (k : p.SigningKey) (m : Bytes) → length (p.sign_bytes k m) ≡ 64
  pub sign_verifies :
      (k : p.SigningKey) (m : Bytes)
      → p.verify_strict (p.verifying_key k) m (p.sign_bytes k m) ≡ true
  pub key_length : (k : p.VerifyingKey) → length (p.as_bytes k) ≡ 32
  pub key_reads_back : (k : p.VerifyingKey) → p.key_from_bytes (p.as_bytes k) ≡ some k
  pub key_eq_iff : (a b : p.VerifyingKey) → (p.key_eq a b ≡ true) ↔ (a ≡ b)
  pub objects_read_back : ReadsBack p.objects

module _ (p : Platform) where
  unfoldable pub sign : Bytes → Bytes → p.SigningKey → Result SignedError Bytes
  sign context body key =
      let signature = p.sign_bytes key (signing_input context body) in
      map_err encode
        (canonical p.objects (record { context = context; body = body; signature = signature }))

  unfoldable pub peek : Bytes → Result SignedError SignedObject
  peek signed = map_err decode (p.objects.from_reader signed)

  unfoldable pub verify : Bytes → Bytes → p.VerifyingKey → Result SignedError Bytes
  unfolding peek
  verify signed context key = do
    so ← peek signed
    refuse_if (not (bytes_eq so.context context)) (wrong_context context so.context)
    refuse_if (not (length so.signature == 64)) bad_signature
    refuse_if (not (p.verify_strict key (signing_input so.context so.body) so.signature))
        bad_signature
    ok so.body

module _ (p : Platform) {A : Type 0} (s : Serde p.cbor A) where
  unfoldable pub sign_value : Bytes → A → p.SigningKey → Result SignedError Bytes
  sign_value context value key = do
    body ← map_err encode (canonical s value)
    sign p context body key

  unfoldable pub verify_value : Bytes → Bytes → p.VerifyingKey → Result SignedError A
  verify_value signed context key = do
    body ← verify p signed context key
    map_err decode (s.from_reader body)
