-- ===== src/Signed/Laws.antt =====
-- Signing and verifying, of core/crates/arveil-core/src/signed.rs.
use arveil.Base.{
  ◌≡◌, ◌≢◌, ◌↔◌, true, Bytes, bytes_eq_iff, bytes_eq_refl, length, ok, err, arith, Result-cases,
  inl, inr,
}
use arveil.Cbor.{Serde, canonical, sort_maps, ReadsBack}
use arveil.Signed.{
  SignedObject, Platform, PlatformLaws, signing_input, sign, verify, sign_value, verify_value,
  wrong_context,
}

-- What an accepted signed object is: it decodes to this context and body, and its signature has
-- 64 bytes and holds over both under the key.
pub record IsSignedBy (p : Platform) (signed context : Bytes) (key : p.VerifyingKey) (body : Bytes)
    : Type 0 where
  pub signature : Bytes
  pub decodes :
      p.objects.from_reader signed
      ≡ ok (record { context = context; body = body; signature = signature })
  pub signature_length : length signature ≡ 64
  pub holds : p.verify_strict key (signing_input context body) signature ≡ true

module _ (p : Platform) (signed context : Bytes) (key : p.VerifyingKey) (body : Bytes) where
  verify-IsSignedBy : verify p signed context key ≡ ok body → IsSignedBy p signed context key body
  unfolding verify
  verify-IsSignedBy h = elim (Result-cases (p.objects.from_reader signed)) [
    | inl (so, e) ↦ record {
      signature = so.signature;
      decodes = ground (arith, bytes_eq_iff so.context context);
      signature_length = ground (arith, bytes_eq_iff so.context context);
      holds = ground (arith, bytes_eq_iff so.context context);
    }
    | inr (x, e) ↦ absurd (ground arith)
  ]

  IsSignedBy-verify : IsSignedBy p signed context key body → verify p signed context key ≡ ok body
  unfolding verify
  IsSignedBy-verify s =
      rw (s.decodes, bytes_eq_refl context, s.holds) (ground (arith, s.signature_length))

  -- `verify` accepts exactly the objects that decode to the expected context and whose signature
  -- holds over that context and the body under the key; what it returns is that body.
  pub verify_iff : (verify p signed context key ≡ ok body) ↔ IsSignedBy p signed context key body
  verify_iff = (verify-IsSignedBy, IsSignedBy-verify)

module _ (p : Platform) (l : PlatformLaws p) (key : p.SigningKey) (context body : Bytes) where
  pub sign-decodes :
      {signed : Bytes}
      → sign p context body key ≡ ok signed
      → p.objects.from_reader signed
        ≡ ok (record {
          context = context;
          body = body;
          signature = p.sign_bytes key (signing_input context body);
        })
  unfolding sign canonical
  sign-decodes {signed} h =
      let so : SignedObject = record {
        context = context;
        body = body;
        signature = p.sign_bytes key (signing_input context body);
      } in
      elim (Result-cases (p.objects.serialized so)) [
        | inl (v, e) ↦ ground (arith, l.objects_read_back.reads_back so e)
        | inr (x, e) ↦ absurd (ground arith)
      ]

  -- What `sign` produces is accepted by `verify` under the signer's key and the same context, with
  -- the same body; under any other context it is refused, whatever the key.
  pub verify-sign :
      (signed : Bytes)
      → sign p context body key ≡ ok signed
      → (verify p signed context (p.verifying_key key) ≡ ok body)
        × ((other : Bytes) (k : p.VerifyingKey)
            → context ≢ other
            → verify p signed other k ≡ err (wrong_context other context))
  unfolding verify
  verify-sign signed h =
      let decoded = sign-decodes h in
      (
        (verify_iff p signed context (p.verifying_key key) body).1 (record {
          signature = p.sign_bytes key (signing_input context body);
          decodes = decoded;
          signature_length = l.sign_length key (signing_input context body);
          holds = l.sign_verifies key (signing_input context body);
        }),
        λ other k ne. ground (arith, decoded, bytes_eq_iff context other),
      )

module _ (p : Platform) (l : PlatformLaws p) {A : Type 0} (s : Serde p.cbor A)
    (r : ReadsBack s) where
  -- A signed value is a signed body that reads back as the value.
  pub sign_value-splits :
      (context : Bytes) (value : A) (key : p.SigningKey) {signed : Bytes}
      → sign_value p s context value key ≡ ok signed
      → (body : Bytes) × (sign p context body key ≡ ok signed) × (s.from_reader body ≡ ok value)
  unfolding sign_value canonical
  sign_value-splits context value key h = elim (Result-cases (s.serialized value)) [
    | inl (v, e) ↦ (
      p.cbor.into_writer (sort_maps p.cbor.into_writer v),
      ground (arith, e, h),
      r.reads_back value e,
    )
    | inr (x, e) ↦ absurd (ground arith)
  ]

  -- What `sign_value` signs, `verify_value` returns under the signer's key and the same context.
  pub verify_value-sign_value :
      (context : Bytes) (value : A) (key : p.SigningKey) {signed : Bytes}
      → sign_value p s context value key ≡ ok signed
      → verify_value p s signed context (p.verifying_key key) ≡ ok value
  unfolding verify_value
  verify_value-sign_value context value key {signed} h =
      let split = sign_value-splits context value key h in
      rw ((verify-sign p l key context split.0 signed split.1).0) (ground (arith, split.2))
