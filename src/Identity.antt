-- ===== src/Identity.antt =====
-- core/crates/arveil-core/src/identity/mod.rs: device credentials and the chain of manifests.
-- Random bytes are arguments; the key pairs of the crate snow are their public bytes.
pub mod Credentials
pub mod Manifests
pub mod Devices
mod Tests
use arveil.Base.{
  ℕ, ◌+◌, ◌%◌, ◌^◌, Bool, true, false, not, ◌&&◌, ◌||◌, String, List, [], ◌∷◌, ◌++◌, Option, none,
  some, Bytes, ascii, bytes_eq, any, length, ltb, ◌==◌, bit_and, if◌then◌else◌, Result, ok, err,
  map_err, ok_or, refuse_if, ◌>>=◌, ◌>>◌,
}
use arveil.Cbor.{Serde}
use arveil.Signed.{SignedError, decode, Platform, peek, verify, sign_value, verify_value}

abbrev pub credential_context : Bytes
credential_context = ascii "arveil/device-credential/v1"

abbrev pub manifest_context : Bytes
manifest_context = ascii "arveil/device-manifest/v1"

abbrev pub credential_version : ℕ
credential_version = 1

abbrev pub manifest_version : ℕ
manifest_version = 1

abbrev pub use_mls_leaf : ℕ
use_mls_leaf = 0b001

abbrev pub use_transport : ℕ
use_transport = 0b010

abbrev pub use_envelope : ℕ
use_envelope = 0b100

pub data IdentityError : Type 0 where
  signed_error : SignedError → IdentityError
  random : IdentityError
  unsupported_version : ℕ → IdentityError
  root_mismatch : IdentityError
  not_valid_at : ℕ → IdentityError
  identity_mismatch : IdentityError
  manifest_rollback : ℕ → ℕ → IdentityError
  manifest_conflict : ℕ → IdentityError
  chain_broken : IdentityError
  binding_mismatch : String → IdentityError
  not_active : IdentityError

pub record Validity : Type 0 where
  pub not_before : ℕ
  pub not_after : ℕ

pub record DeviceCredential : Type 0 where
  pub version : ℕ
  pub identity_root_public_key : Bytes
  pub device_id : Bytes
  pub mls_signature_public_key : Bytes
  pub transport_noise_public_key : Bytes
  pub envelope_hpke_public_key : Bytes
  pub validity : Validity
  pub allowed_uses : ℕ

pub record DeviceManifest : Type 0 where
  pub version : ℕ
  pub identity_id : Bytes
  pub manifest_sequence : ℕ
  pub previous_manifest_hash : Bytes
  pub active_credential_hashes : List Bytes
  pub revoked_credential_hashes : List Bytes

pub record DevicePublicKeys : Type 0 where
  pub device_id : Bytes
  pub mls_signature_public_key : Bytes
  pub transport_noise_public_key : Bytes
  pub envelope_hpke_public_key : Bytes

pub record ManifestState : Type 0 where
  pub sequence : ℕ
  pub hash : Bytes

-- A decoding error of this module.
abbrev pub decoding : String → IdentityError
decoding text = signed_error (decode text)

module _ (p : Platform) where
  -- The two `update` calls hash the concatenation.
  unfoldable pub hash : Bytes → Bytes → Bytes
  hash context bytes = p.sha256 (context ++ bytes)

  unfoldable pub identity_id : p.VerifyingKey → Bytes
  identity_id root_public = hash (ascii "arveil/identity-id/v1") (p.as_bytes root_public)

  unfoldable pub credential_hash : Bytes → Bytes
  credential_hash = hash (ascii "arveil/credential-hash/v1")

  unfoldable pub manifest_hash : Bytes → Bytes
  manifest_hash = hash (ascii "arveil/manifest-hash/v1")

  pub record VerifiedCredential : Type 0 where
    pub credential : DeviceCredential
    pub root : p.VerifyingKey
    pub hash : Bytes

  pub record ClaimedDevice : Type 0 where
    pub root : p.VerifyingKey
    pub device_id : Bytes
    pub credential_hash : Bytes
    pub envelope_hpke_public_key : Bytes

  -- `expected_root`, when there is one, must be the root.
  abbrev pub matches_root : Option p.VerifyingKey → p.VerifyingKey → Bool
  matches_root none root = true
  matches_root (some expected) root = p.key_eq expected root

-- The body that `issue_credential` signs.
abbrev pub issued :
    (p : Platform) → p.SigningKey → DevicePublicKeys → Validity → ℕ → DeviceCredential
issued p root device validity allowed_uses = record {
  version = credential_version;
  identity_root_public_key = p.as_bytes (p.verifying_key root);
  device_id = device.device_id;
  mls_signature_public_key = device.mls_signature_public_key;
  transport_noise_public_key = device.transport_noise_public_key;
  envelope_hpke_public_key = device.envelope_hpke_public_key;
  validity = validity;
  allowed_uses = allowed_uses;
}

module _ (p : Platform) (credentials : Serde p.cbor DeviceCredential) where
  unfoldable pub issue_credential :
      p.SigningKey → DevicePublicKeys → Validity → ℕ → Result IdentityError Bytes
  issue_credential root device validity allowed_uses = map_err signed_error (
      sign_value p credentials credential_context (issued p root device validity allowed_uses) root)

  unfoldable pub verify_credential :
      Bytes → Option p.VerifyingKey → ℕ → Result IdentityError (VerifiedCredential p)
  verify_credential signed_credential expected_root now = do
    so ← map_err signed_error (peek p signed_credential)
    body ← map_err decoding (credentials.from_reader so.body)
    refuse_if (not (body.version == credential_version)) (unsupported_version body.version)
    refuse_if (not (length body.identity_root_public_key == 32)) (decoding "root key length")
    root ← ok_or (p.key_from_bytes body.identity_root_public_key) (decoding "root key")
    refuse_if (not (matches_root p expected_root root)) root_mismatch
    _ ← map_err signed_error (verify p signed_credential credential_context root)
    refuse_if (ltb now body.validity.not_before || ltb body.validity.not_after now)
        (not_valid_at now)
    ok (record { credential = body; root = root; hash = credential_hash p signed_credential })

-- The next sequence wraps at 64 bits, as a release build adds.
abbrev pub next_sequence : Option ManifestState → ℕ
next_sequence none = 1
next_sequence (some previous) = (previous.sequence + 1) % 2 ^ 64

abbrev pub previous_hash : Option ManifestState → Bytes
previous_hash none = []
previous_hash (some previous) = previous.hash

-- The `match known` of `accept_manifest`, on the body and the hash of what arrived: the state
-- to remember, or why it is refused.
unfoldable pub check_known :
    DeviceManifest → Bytes → Option ManifestState → Result IdentityError ManifestState
check_known body hash none = ok (record { sequence = body.manifest_sequence; hash = hash })
check_known body hash (some k) =
    if body.manifest_sequence == k.sequence
    then if bytes_eq hash k.hash
      then ok (record { sequence = k.sequence; hash = hash })
      else err (manifest_conflict k.sequence)
    else if ltb body.manifest_sequence k.sequence
    then err (manifest_rollback body.manifest_sequence k.sequence)
    else if body.manifest_sequence == k.sequence + 1
        && not (bytes_eq body.previous_manifest_hash k.hash)
    then err chain_broken
    else ok (record { sequence = body.manifest_sequence; hash = hash })

module _ (p : Platform) (manifests : Serde p.cbor DeviceManifest) where
  unfoldable pub manifest_identity_unverified : Bytes → Option Bytes
  manifest_identity_unverified signed_manifest =
      elim (map_err signed_error (peek p signed_manifest)) [
        | ok so ↦ elim (manifests.from_reader so.body) [
          | ok body ↦ some body.identity_id
          | err e ↦ none
        ]
        | err e ↦ none
      ]

  unfoldable pub issue_manifest :
      p.SigningKey → Option ManifestState → List Bytes → List Bytes → Result IdentityError Bytes
  issue_manifest root previous active revoked =
      let body : DeviceManifest = record {
        version = manifest_version;
        identity_id = identity_id p (p.verifying_key root);
        manifest_sequence = next_sequence previous;
        previous_manifest_hash = previous_hash previous;
        active_credential_hashes = active;
        revoked_credential_hashes = revoked;
      } in
      map_err signed_error (sign_value p manifests manifest_context body root)

  unfoldable pub accept_manifest :
      Bytes
      → p.VerifyingKey
      → Option ManifestState
      → Result IdentityError (DeviceManifest × ManifestState)
  accept_manifest signed_manifest root known = do
    body ← map_err signed_error (verify_value p manifests signed_manifest manifest_context root)
    refuse_if (not (body.version == manifest_version)) (unsupported_version body.version)
    refuse_if (not (bytes_eq body.identity_id (identity_id p root))) identity_mismatch
    state ← check_known body (manifest_hash p signed_manifest) known
    ok (body, state)

module _ (p : Platform) (credentials : Serde p.cbor DeviceCredential)
    (manifests : Serde p.cbor DeviceManifest) where
  unfoldable pub verify_claimed_device :
      ClaimedDevice p → Bytes → Bytes → ℕ → Result IdentityError DeviceCredential
  verify_claimed_device claimed signed_credential signed_manifest now = do
    verified ← verify_credential p credentials signed_credential (some claimed.root) now
    refuse_if (not (bytes_eq verified.hash claimed.credential_hash))
        (binding_mismatch "credential hash")
    let c = verified.credential
    refuse_if (not (bytes_eq c.device_id claimed.device_id)) (binding_mismatch "device")
    refuse_if (not (bytes_eq c.envelope_hpke_public_key claimed.envelope_hpke_public_key))
        (binding_mismatch "envelope key")
    refuse_if (not (bit_and c.allowed_uses 0b101 == 0b101)) (binding_mismatch "use")
    accepted ← accept_manifest p manifests signed_manifest claimed.root none
    refuse_if (not (any (λ h. bytes_eq h verified.hash) accepted.0.active_credential_hashes))
        not_active
    ok c
