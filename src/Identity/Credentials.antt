-- ===== src/Identity/Credentials.antt =====
-- `issue_credential` and `verify_credential` of core/crates/arveil-core/src/identity/mod.rs.
use arveil.Base.{
  ℕ, ◌≤◌, ◌≡◌, ◌↔◌, refl, subst, ◌∙◌, Option, some, true, Bytes, ◌||◌, if◌then◌else◌, length, ltb,
  ok, err, arith, Result-cases, Option-cases, map_err-eq-ok, inl, inr,
}
use arveil.Cbor.{Serde, ReadsBack}
use arveil.Signed.Laws.{IsSignedBy, verify_iff, verify-sign, sign-decodes, sign_value-splits}
use arveil.Signed.{Platform, PlatformLaws, SignedObject, peek, verify}
use arveil.Identity.{
  Validity, DeviceCredential, DevicePublicKeys, VerifiedCredential, credential_context,
  credential_version, matches_root, issued, credential_hash, issue_credential, verify_credential,
  root_mismatch, not_valid_at, signed_error,
}

module _ (p : Platform) (credentials : Serde p.cbor DeviceCredential) where
  -- What a verified credential is.
  pub record IsVerified (signed : Bytes) (expected : Option p.VerifyingKey) (now : ℕ)
      (v : VerifiedCredential p) : Type 0 where
    pub body : Bytes
    pub signed_by_root : IsSignedBy p signed credential_context v.root body
    pub decodes : credentials.from_reader body ≡ ok v.credential
    pub version : v.credential.version ≡ credential_version
    pub key_length : length v.credential.identity_root_public_key ≡ 32
    pub root_in_body : p.key_from_bytes v.credential.identity_root_public_key ≡ some v.root
    pub root_expected : matches_root p expected v.root ≡ true
    pub in_window :
        (v.credential.validity.not_before ≤ now) × (now ≤ v.credential.validity.not_after)
    pub hash_is : v.hash ≡ credential_hash p signed

  module _ (signed : Bytes) (expected : Option p.VerifyingKey) (now : ℕ)
      (v : VerifiedCredential p) where
    verify-IsVerified :
        verify_credential p credentials signed expected now ≡ ok v
        → IsVerified signed expected now v
    unfolding verify_credential peek
    verify-IsVerified h = elim (Result-cases (p.objects.from_reader signed)) [
      | inl (so, e) ↦ elim (Result-cases (credentials.from_reader so.body)) [
        | inl (c, d) ↦ elim (Option-cases (p.key_from_bytes c.identity_root_public_key)) [
          | inr (root, r) ↦ elim (Result-cases (verify p signed credential_context root)) [
            | inl (body, s) ↦
                let sound = (verify_iff p signed credential_context root body).0 s in
                let root_is : root ≡ v.root = ground (arith, e, d, r, s) in
                let c_is : c ≡ v.credential = ground (arith, e, d, r, s) in
                record {
                  body = body;
                  signed_by_root =
                      subst (λ k. IsSignedBy p signed credential_context k body) root_is sound;
                  decodes = cc (e, d, sound.decodes, c_is);
                  version = ground (arith, e, d, r, s);
                  key_length = ground (arith, e, d, r, s);
                  root_in_body = ground (arith, e, d, r, s);
                  root_expected = ground (arith, e, d, r, s);
                  in_window = ground (arith, e, d, r, s);
                  hash_is = ground (arith, e, d, r, s);
                }
            | inr (x, s) ↦ absurd (ground (arith, e, d, r, s))
          ]
          | inl r ↦ absurd (ground (arith, e, d, r))
        ]
        | inr (x, d) ↦ absurd (ground (arith, e, d))
      ]
      | inr (x, e) ↦ absurd (ground arith)
    ]

  module _ (signed : Bytes) (expected : Option p.VerifyingKey) (now : ℕ) {so : SignedObject}
      {c : DeviceCredential} {root : p.VerifyingKey} {body : Bytes} where
    -- The two checks that depend on the caller, for a credential that is otherwise in order.
    verify_checks :
        p.objects.from_reader signed ≡ ok so
        → credentials.from_reader so.body ≡ ok c
        → c.version ≡ credential_version
        → length c.identity_root_public_key ≡ 32
        → p.key_from_bytes c.identity_root_public_key ≡ some root
        → verify p signed credential_context root ≡ ok body
        → verify_credential p credentials signed expected now ≡ (
            if matches_root p expected root
            then if ltb now c.validity.not_before || ltb c.validity.not_after now
              then err (not_valid_at now)
              else ok (record { credential = c; root = root; hash = credential_hash p signed })
            else err root_mismatch)
    unfolding verify_credential peek
    verify_checks e d v n r s = rw (e, d) (rw (v, n) (rw (r, s) (ground arith)))

  -- `verify_credential` accepts exactly the credentials that are signed, for this purpose, by the
  -- root key that they carry, of this version, when that root is the expected one, if any, and
  -- the time lies in the window of validity.
  pub verify_credential_iff :
      (signed : Bytes) (expected : Option p.VerifyingKey) (now : ℕ) (v : VerifiedCredential p)
      → (verify_credential p credentials signed expected now ≡ ok v)
        ↔ IsVerified signed expected now v
  verify_credential_iff signed expected now v = (
    verify-IsVerified signed expected now v,
    λ i.
        let s = i.signed_by_root in
        verify_checks signed expected now s.decodes i.decodes i.version i.key_length i.root_in_body
          ((verify_iff p signed credential_context v.root i.body).1 s)
        ∙ ground (arith, i.root_expected, i.in_window.0, i.in_window.1, i.hash_is),
  )

module _ (p : Platform) (laws : PlatformLaws p) (credentials : Serde p.cbor DeviceCredential)
    (reads : ReadsBack credentials) where
  -- An issued credential verifies under its root exactly in its window of validity: with another
  -- expected root it is refused, and outside the window too.
  pub verify_credential-issue_credential :
      (root : p.SigningKey) (device : DevicePublicKeys) (validity : Validity) (uses : ℕ)
      (signed : Bytes) (expected : Option p.VerifyingKey) (now : ℕ)
      → issue_credential p credentials root device validity uses ≡ ok signed
      → verify_credential p credentials signed expected now ≡ (
          if matches_root p expected (p.verifying_key root)
          then if ltb now validity.not_before || ltb validity.not_after now
            then err (not_valid_at now)
            else ok (record {
              credential = issued p root device validity uses;
              root = p.verifying_key root;
              hash = credential_hash p signed;
            })
          else err root_mismatch)
  unfolding issue_credential
  verify_credential-issue_credential root device validity uses signed expected now h =
      let c = issued p root device validity uses in
      let s =
        sign_value-splits p laws credentials reads credential_context c root
          (map_err-eq-ok signed_error _ h) in
      verify_checks p credentials signed expected now
        (sign-decodes p laws root credential_context s.0 s.1) s.2 refl (laws.key_length _)
        (laws.key_reads_back _) ((verify-sign p laws root credential_context s.0 signed s.1).0)
