-- ===== src/Envelope/Sealing.antt =====
-- Envelopes sealed and opened, of core/crates/arveil-core/src/envelope.rs.
use arveil.Base.{ℕ, ◌+◌, ◌-◌, ◌≡◌, false, Bytes, length, arith, ok, Result-cases, inl, inr}
use arveil.Cbor.{Cbor, Serde, canonical, ReadsBack}
use arveil.Envelope.{
  Hpke, EnvelopeContext, InnerPayload, Sealed, info, bucket_for, aad, seal, open_sealed,
}
use arveil.Envelope.Padding.{PaddingLaws, inner_of, size, is_unreachable, pad_lem}

-- What the code relies on: sealing for a public key succeeds, adds the 16 bytes of the tag, and is
-- opened with the private key under the same context.
pub record HpkeLaws (h : Hpke) : Type 0 where
  pub public_of : Bytes → Bytes
  pub sealed_as : h.Randomness → Bytes → Bytes → Bytes → Bytes → Sealed
  pub seals :
      (random : h.Randomness) (private context message : Bytes)
      → h.hpke_seal random (public_of private) info context message
        ≡ ok (sealed_as random (public_of private) info context message)
  pub length_sealed :
      (random : h.Randomness) (public context message : Bytes)
      → length (sealed_as random public info context message).ciphertext ≡ length message + 16
  pub opens :
      (random : h.Randomness) (private context message : Bytes)
      → h.hpke_open
          (sealed_as random (public_of private) info context message).enc
          private
          info
          context
          (sealed_as random (public_of private) info context message).ciphertext
        ≡ ok message

module _ {c : Cbor} (h : Hpke) (laws : HpkeLaws h) (contexts : Serde c EnvelopeContext)
    (payloads : Serde c InnerPayload) (padding : PaddingLaws payloads) (reads : ReadsBack payloads)
    (kind : ℕ) (payload : Bytes) where
  read_inner :
      (n : ℕ) → payloads.from_reader (padding.bytes kind payload n) ≡ ok (inner_of kind payload n)
  unfolding canonical
  read_inner n = elim (Result-cases (payloads.serialized (inner_of kind payload n))) [
    | inl (v, e) ↦
        ground (arith, reads.reads_back (inner_of kind payload n) e, padding.writes kind payload n)
    | inr (x, e) ↦ absurd (ground (arith, padding.writes kind payload n))
  ]

  -- A payload that a bucket holds, short of it by none of the lengths the padding cannot reach, is
  -- sealed in a ciphertext of the bucket's length and 16 bytes, whatever the payload is, and the
  -- recipient opens it under the same context to the same kind and payload.
  pub open_sealed-seal :
      (random : h.Randomness) (private : Bytes) (ctx : EnvelopeContext) (a : Bytes) (target : ℕ)
      → canonical contexts ctx ≡ ok a
      → bucket_for {E = h.HpkeError} (size payloads padding kind payload) ≡ ok target
      → is_unreachable (target - size payloads padding kind payload) ≡ false
      → (sealed : Sealed) × (seal h contexts payloads random
            (laws.public_of private)
            ctx
            kind
            payload
          ≡ ok sealed)
        × (length sealed.ciphertext ≡ target + 16)
        × ((n : ℕ) × (open_sealed h contexts payloads private ctx sealed
              ≡ ok (inner_of kind payload n)))
  unfolding seal open_sealed aad
  open_sealed-seal random private ctx a target serialized fits reachable =
      let (n, padded, long) =
        ((pad_lem payloads padding kind payload {E = h.HpkeError}).0 target fits).0 reachable in
      let sealed : Sealed =
        laws.sealed_as random (laws.public_of private) info a (padding.bytes kind payload n) in
      (
        sealed,
        ground (arith, laws.seals random private a (padding.bytes kind payload n)),
        omega (
          arith,
          long,
          laws.length_sealed random (laws.public_of private) a (padding.bytes kind payload n),
        ),
        (
          n,
          ground (arith, laws.opens random private a (padding.bytes kind payload n), read_inner n),
        ),
      )
