-- ===== src/Identity/Devices.antt =====
-- `verify_claimed_device` of core/crates/arveil-core/src/identity/mod.rs.
use mathlib.Core.List.{Mem}
use arveil.Base.{
  ℕ, ◌≡◌, subst, none, some, true, Bytes, bit_and, bytes_eq_iff, any-bytes_eq, any, bytes_eq, ok,
  arith, Result-cases, inl, inr,
}
use arveil.Cbor.{Serde}
use arveil.Signed.{Platform}
use arveil.Identity.Credentials.{IsVerified, verify_credential_iff}
use arveil.Identity.Manifests.{IsAccepted, accept_manifest_iff}
use arveil.Identity.{
  DeviceCredential, DeviceManifest, ManifestState, VerifiedCredential, ClaimedDevice,
  verify_credential, accept_manifest, verify_claimed_device, credential_hash,
}

module _ (p : Platform) (credentials : Serde p.cbor DeviceCredential)
    (manifests : Serde p.cbor DeviceManifest) where
  -- What binds a claimed device to its root.
  pub record IsVouched (claimed : ClaimedDevice p) (signed_credential signed_manifest : Bytes)
      (now : ℕ) (c : DeviceCredential) : Type 0 where
    pub verified : VerifiedCredential p
    pub is_verified : IsVerified p credentials signed_credential (some claimed.root) now verified
    pub returned : verified.credential ≡ c
    pub same_hash : credential_hash p signed_credential ≡ claimed.credential_hash
    pub same_device : c.device_id ≡ claimed.device_id
    pub same_envelope_key : c.envelope_hpke_public_key ≡ claimed.envelope_hpke_public_key
    pub uses : bit_and c.allowed_uses 0b101 ≡ 0b101
    pub manifest : DeviceManifest
    pub state : ManifestState
    pub is_accepted : IsAccepted p manifests signed_manifest claimed.root none manifest state
    pub active : Mem claimed.credential_hash manifest.active_credential_hashes

  -- A device is believed only if a credential signed by the claimed root, valid now, names the
  -- claimed device and envelope key, hashes to the claimed hash and allows both uses, and a
  -- manifest signed by the same root lists that hash as active; its credential is returned.
  pub verify_claimed_device-IsVouched :
      (claimed : ClaimedDevice p) (signed_credential signed_manifest : Bytes) (now : ℕ)
      (c : DeviceCredential)
      → verify_claimed_device p credentials manifests claimed signed_credential signed_manifest now
        ≡ ok c
      → IsVouched claimed signed_credential signed_manifest now c
  unfolding verify_claimed_device
  verify_claimed_device-IsVouched claimed signed_credential signed_manifest now c h =
      elim (Result-cases
        (verify_credential p credentials signed_credential (some claimed.root) now)) [
          | inl (v, e) ↦
              elim (Result-cases (accept_manifest p manifests signed_manifest claimed.root none)) [
                | inl ((m, st), a) ↦
                    let i =
                      (verify_credential_iff p credentials signed_credential (some claimed.root) now
                          v).0
                        e in
                    let hash_is : v.hash ≡ claimed.credential_hash =
                      ground (arith, e, a, bytes_eq_iff v.hash claimed.credential_hash) in
                    let listed : any (λ h. bytes_eq h v.hash) m.active_credential_hashes ≡ true =
                      ground (arith, e, a) in
                    let returned : v.credential ≡ c = ground (arith, e, a) in
                    record {
                      verified = v;
                      is_verified = i;
                      returned = returned;
                      same_hash = cc (i.hash_is, hash_is);
                      same_device = ground (
                        arith,
                        e,
                        a,
                        returned,
                        bytes_eq_iff v.credential.device_id claimed.device_id,
                      );
                      same_envelope_key = ground (
                        arith,
                        e,
                        a,
                        returned,
                        bytes_eq_iff v.credential.envelope_hpke_public_key
                            claimed.envelope_hpke_public_key,
                      );
                      uses = ground (arith, e, a, returned);
                      manifest = m;
                      state = st;
                      is_accepted =
                          (accept_manifest_iff p manifests signed_manifest claimed.root none m st).0
                            a;
                      active =
                          subst (λ h. Mem h m.active_credential_hashes) hash_is
                            (any-bytes_eq v.hash _ listed);
                    }
                | inr (x, a) ↦ absurd (ground (arith, e, a))
              ]
          | inr (x, e) ↦ absurd (ground (arith, e))
        ]
