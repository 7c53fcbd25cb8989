-- ===== src/Identity/Manifests.antt =====
-- `issue_manifest` and `accept_manifest` of core/crates/arveil-core/src/identity/mod.rs.
use native.Mathlib.Nat.{le_refl}
use arveil.Base.{
  ◌+◌, ◌^◌, ◌≤◌, ◌<◌, ◌≡◌, ◌≢◌, ◌↔◌, refl, ◌∙◌, List, [], ◌∷◌, Option, none, some, Bytes,
  bytes_eq_iff, Result, ok, err, ◌>>=◌, arith, Result-cases, map_err-eq-ok, inl, inr,
}
use arveil.Cbor.{Serde, ReadsBack}
use arveil.Signed.Laws.{verify_value-sign_value}
use arveil.Signed.{Platform, PlatformLaws, verify_value}
use arveil.Identity.{
  IdentityError, DeviceManifest, ManifestState, manifest_context, manifest_version, identity_id,
  manifest_hash, next_sequence, previous_hash, issue_manifest, check_known, accept_manifest,
  signed_error, manifest_rollback, manifest_conflict, chain_broken,
}

-- How a manifest may follow what is known: no lower sequence, at the same sequence the same
-- manifest, and one step further only in the chain of the known hash.
abbrev pub Extends : Option ManifestState → DeviceManifest → Bytes → Type 0
Extends none body hash = Unit
Extends (some k) body hash =
    (k.sequence ≤ body.manifest_sequence)
    × (body.manifest_sequence ≡ k.sequence → hash ≡ k.hash)
    × (body.manifest_sequence ≡ k.sequence + 1 → body.previous_manifest_hash ≡ k.hash)

check_known_iff :
    (body : DeviceManifest) (hash : Bytes) (known : Option ManifestState) (state : ManifestState)
    → (check_known body hash known ≡ ok state) ↔ (
        (state ≡ record { sequence = body.manifest_sequence; hash = hash })
        × Extends known body hash)
unfolding check_known
check_known_iff body hash none state = ground arith
check_known_iff body hash (some k) state =
    ground (arith, bytes_eq_iff hash k.hash, bytes_eq_iff body.previous_manifest_hash k.hash)

module _ (p : Platform) (manifests : Serde p.cbor DeviceManifest) where
  -- What an accepted manifest is.
  pub record IsAccepted (signed : Bytes) (root : p.VerifyingKey) (known : Option ManifestState)
      (body : DeviceManifest) (state : ManifestState) : Type 0 where
    pub verified : verify_value p manifests signed manifest_context root ≡ ok body
    pub version : body.version ≡ manifest_version
    pub identity : body.identity_id ≡ identity_id p root
    pub remembers :
        state ≡ record { sequence = body.manifest_sequence; hash = manifest_hash p signed }
    pub extends : Extends known body (manifest_hash p signed)

  module _ (signed : Bytes) (root : p.VerifyingKey) (known : Option ManifestState) where
    -- `accept_manifest` once the signature has given the body.
    accept_verified :
        {body : DeviceManifest}
        → verify_value p manifests signed manifest_context root ≡ ok body
        → body.version ≡ manifest_version
        → body.identity_id ≡ identity_id p root
        → accept_manifest p manifests signed root known
          ≡ (do state ← check_known body (manifest_hash p signed) known; ok (body, state))
    unfolding accept_manifest
    accept_verified {body} e v i =
        rw e (ground (arith, bytes_eq_iff body.identity_id (identity_id p root)))

    accept-IsAccepted :
        {body : DeviceManifest} {state : ManifestState}
        → accept_manifest p manifests signed root known ≡ ok (body, state)
        → IsAccepted signed root known body state
    unfolding accept_manifest
    accept-IsAccepted {body} {state} h =
        elim (Result-cases (verify_value p manifests signed manifest_context root)) [
          | inl (b, e) ↦
              let checked : check_known body (manifest_hash p signed) known ≡ ok state =
                ground (arith, e) in
              let found = (check_known_iff body (manifest_hash p signed) known state).0 checked in
              record {
                verified = ground (arith, e);
                version = ground (arith, e);
                identity = ground (arith, e, bytes_eq_iff b.identity_id (identity_id p root));
                remembers = found.0;
                extends = found.1;
              }
          | inr (x, e) ↦ absurd (ground arith)
        ]

    -- `accept_manifest` accepts exactly the manifests that are signed by the root for this
    -- purpose, have the version and the root's identity, and extend what is known; it returns
    -- their body, and remembers their sequence and their hash.
    pub accept_manifest_iff :
        (body : DeviceManifest) (state : ManifestState)
        → (accept_manifest p manifests signed root known ≡ ok (body, state))
          ↔ IsAccepted signed root known body state
    accept_manifest_iff body state = (
      accept-IsAccepted,
      λ a.
          accept_verified a.verified a.version a.identity
          ∙ rw (
              (check_known_iff body (manifest_hash p signed) known state).1
                (a.remembers, a.extends)),
    )

    -- Each refusal, for a manifest of this root and version: a lower sequence is a rollback, another
    -- manifest of the same sequence a conflict, and a successor that does not name the known hash
    -- breaks the chain.
    pub accept_manifest_refuses :
        (k : ManifestState) (body : DeviceManifest)
        → known ≡ some k
        → verify_value p manifests signed manifest_context root ≡ ok body
        → body.version ≡ manifest_version
        → body.identity_id ≡ identity_id p root
        → (body.manifest_sequence < k.sequence
            → accept_manifest p manifests signed root known
              ≡ err (manifest_rollback body.manifest_sequence k.sequence))
          × (body.manifest_sequence ≡ k.sequence
              → manifest_hash p signed ≢ k.hash
              → accept_manifest p manifests signed root known ≡ err (manifest_conflict k.sequence))
          × (body.manifest_sequence ≡ k.sequence + 1
              → body.previous_manifest_hash ≢ k.hash
              → accept_manifest p manifests signed root known ≡ err chain_broken)
    unfolding check_known
    accept_manifest_refuses k body is_known e v i =
        let step = accept_verified e v i in
        (
          λ lt. step ∙ rw is_known (ground arith),
          λ eq ne.
              step ∙ rw is_known (ground (arith, bytes_eq_iff (manifest_hash p signed) k.hash)),
          λ eq ne.
              step ∙ rw is_known (ground (arith, bytes_eq_iff body.previous_manifest_hash k.hash)),
        )

-- A device that keeps what it accepts, and drops what it refuses.
module _ (p : Platform) (manifests : Serde p.cbor DeviceManifest) (root : p.VerifyingKey) where
  abbrev pub keep :
      Option ManifestState
      → Result IdentityError (DeviceManifest × ManifestState)
      → Option ManifestState
  keep known (ok (body, state)) = some state
  keep known (err e) = known

  abbrev pub follow : Option ManifestState → List Bytes → Option ManifestState
  follow known [] = known
  follow known (m ∷ ms) = follow (keep known (accept_manifest p manifests m root known)) ms

  -- What is remembered now is at or after what was remembered, and equal at the same sequence.
  abbrev pub Continues : ManifestState → Option ManifestState → Type 0
  Continues k none = ⊥
  Continues k (some k') = (k.sequence ≤ k'.sequence) × (k'.sequence ≡ k.sequence → k' ≡ k)

  keep-Continues :
      (k : ManifestState) (m : Bytes)
      → Continues k (keep (some k) (accept_manifest p manifests m root (some k)))
  keep-Continues k m = elim (Result-cases (accept_manifest p manifests m root (some k))) [
    | inl ((body, state), e) ↦
        let a = (accept_manifest_iff p manifests m root (some k) body state).0 e in
        rw e (ground (arith, a.remembers, a.extends))
    | inr (x, e) ↦ rw e (le_refl _, λ _. refl)
  ]

  Continues-trans :
      (k k' : ManifestState) (o : Option ManifestState)
      → Continues k (some k')
      → Continues k' o
      → Continues k o
  Continues-trans k k' none c d = absurd d
  Continues-trans k k' (some k'') c d = ground arith

  follow_on :
      (k : ManifestState) (o : Option ManifestState) (ms : List Bytes)
      → Continues k o
      → Continues k (follow o ms)
  follow_on k none ms c = absurd c
  follow_on k (some k') [] c = c
  follow_on k (some k') (m ∷ ms) c =
      follow_on k (keep (some k') (accept_manifest p manifests m root (some k'))) ms
        (Continues-trans k k' _ c (keep-Continues k' m))

  -- Over any series of manifests, genuine or not, the remembered sequence never decreases, and as
  -- long as it stays the same, so does the remembered hash.
  pub follow-Continues : (k : ManifestState) (ms : List Bytes) → Continues k (follow (some k) ms)
  follow-Continues k ms = follow_on k (some k) ms (le_refl _, λ _. refl)

Extends-issued :
    (known : Option ManifestState) (body : DeviceManifest) (hash : Bytes)
    → ((k : ManifestState) → known ≡ some k → k.sequence + 1 < 2 ^ 64)
    → body.manifest_sequence ≡ next_sequence known
    → body.previous_manifest_hash ≡ previous_hash known
    → Extends known body hash
Extends-issued none body hash fits s h = tt
Extends-issued (some k) body hash fits s h =
    let below = fits k refl in (omega arith, λ e. absurd (omega arith), λ _. h)

module _ (p : Platform) (laws : PlatformLaws p) (manifests : Serde p.cbor DeviceManifest)
    (reads : ReadsBack manifests) where
  -- The manifest that `issue_manifest` builds on what is known is accepted by whoever knows the
  -- same, with the given hashes and the next sequence, as long as that fits in 64 bits.
  pub accept_manifest-issue_manifest :
      (root : p.SigningKey) (known : Option ManifestState) (active revoked : List Bytes)
      (signed : Bytes)
      → ((k : ManifestState) → known ≡ some k → k.sequence + 1 < 2 ^ 64)
      → issue_manifest p manifests root known active revoked ≡ ok signed
      → accept_manifest p manifests signed (p.verifying_key root) known
        ≡ ok (
          record {
            version = manifest_version;
            identity_id = identity_id p (p.verifying_key root);
            manifest_sequence = next_sequence known;
            previous_manifest_hash = previous_hash known;
            active_credential_hashes = active;
            revoked_credential_hashes = revoked;
          },
          record { sequence = next_sequence known; hash = manifest_hash p signed },
        )
  unfolding issue_manifest
  accept_manifest-issue_manifest root known active revoked signed fits h =
      (accept_manifest_iff p manifests signed (p.verifying_key root) known _ _).1 (record {
        verified =
            verify_value-sign_value p laws manifests reads manifest_context _ root
              (map_err-eq-ok signed_error _ h);
        version = refl;
        identity = refl;
        remembers = refl;
        extends = Extends-issued known _ _ fits refl refl;
      })
