-- ===== src/Envelope.antt =====
-- core/crates/arveil-core/src/envelope.rs: the inner payload, its padding to a bucket, and the HPKE
-- seal for one recipient. HPKE and serde stand outside, as the fields of two interfaces.
pub mod Buckets
pub mod Padding
pub mod Sealing
mod Tests
use arveil.Base.{
  ℕ, zero, suc, ◌+◌, ◌-◌, ◌^◌, Bool, true, false, not, String, List, [], ◌∷◌, Bytes, ascii, length,
  replicate, leb, ◌==◌, if◌then◌else◌, Option, none, some, Result, ok, err, ◌>>=◌, ◌>>◌, map_err,
  refuse_if,
}
use arveil.Cbor.{Cbor, Serde, canonical}

abbrev pub version : ℕ
version = 1

abbrev info : Bytes
info = ascii "arveil/envelope/v1"

abbrev pub kind_mls : ℕ
kind_mls = 1

abbrev pub buckets : List ℕ
buckets = 256 ∷ 1024 ∷ 4096 ∷ 16384 ∷ 65536 ∷ 262144 ∷ []

-- The error of HPKE is what the library says.
pub data EnvelopeError (HpkeError : Type 0) : Type 0 where
  too_large : ℕ → EnvelopeError HpkeError
  encode decode : String → EnvelopeError HpkeError
  hpke : HpkeError → EnvelopeError HpkeError
  unsupported_version : ℕ → EnvelopeError HpkeError

pub record EnvelopeContext : Type 0 where
  pub version : ℕ
  pub realm_id : Bytes
  pub mailbox_id : Bytes
  pub delivery_id : Bytes

abbrev pub new : Bytes → Bytes → Bytes → EnvelopeContext
new realm_id mailbox_id delivery_id = record {
  version = version;
  realm_id = realm_id;
  mailbox_id = mailbox_id;
  delivery_id = delivery_id;
}

pub record InnerPayload : Type 0 where
  pub version : ℕ
  pub kind : ℕ
  pub payload : Bytes
  pub padding : Bytes

pub record Sealed : Type 0 where
  pub enc : Bytes
  pub ciphertext : Bytes

-- hpke_rs with its suite: sealing draws from the randomness that it is given.
pub record Hpke : Type 1 where
  pub HpkeError : Type 0
  pub Randomness : Type 0
  pub hpke_seal : Randomness → Bytes → Bytes → Bytes → Bytes → Result HpkeError Sealed
  pub hpke_open : Bytes → Bytes → Bytes → Bytes → Bytes → Result HpkeError Bytes

-- `find(|b| *b >= encoded_len)`
unfoldable pub find_bucket : ℕ → List ℕ → Option ℕ
find_bucket n [] = none
find_bucket n (b ∷ bs) = if leb n b then some b else find_bucket n bs

module _ {E : Type 0} where
  unfoldable pub bucket_for : ℕ → Result (EnvelopeError E) ℕ
  bucket_for encoded_len = elim (find_bucket encoded_len buckets) [
    | none ↦ err (too_large encoded_len)
    | some b ↦ ok b
  ]

unfoldable pub inner_padding_overhead : ℕ → ℕ
inner_padding_overhead len =
    if leb len 23 then 0 else if leb len 255 then 1 else if leb len 65535 then 2 else 4

-- `pad_len + target - len` on a machine word of 64 bits, wrapping below 0.
unfoldable pub next_pad_len : ℕ → ℕ → ℕ → ℕ
next_pad_len pad_len target len =
    if leb len (pad_len + target) then pad_len + target - len else pad_len + target + 2 ^ 64 - len

module _ {c : Cbor} (payloads : Serde c InnerPayload) {E : Type 0} where
  -- The body of `for _ in 0..4`, with the rounds that are left.
  unfoldable pub converge : ℕ → ℕ → ℕ → InnerPayload → Result (EnvelopeError E) Bytes
  converge zero target pad_len inner = err (encode "padding did not converge")
  converge (suc rounds) target pad_len inner = do
    let padded : InnerPayload = record inner {
      padding = replicate (pad_len - inner_padding_overhead pad_len) 0;
    }
    encoded ← map_err encode (canonical payloads padded)
    elim (length encoded == target) [
      | true ↦ ok encoded
      | false ↦ converge rounds target (next_pad_len pad_len target (length encoded)) padded
    ]

  unfoldable pub pad : ℕ → Bytes → Result (EnvelopeError E) Bytes
  pad kind payload = do
    let inner : InnerPayload = record {
      version = version;
      kind = kind;
      payload = payload;
      padding = [];
    }
    base ← map_err encode (canonical payloads inner)
    target ← bucket_for (length base)
    converge 4 target (target - length base) inner

module _ {c : Cbor} (h : Hpke) (contexts : Serde c EnvelopeContext)
    (payloads : Serde c InnerPayload) where
  unfoldable pub aad : EnvelopeContext → Result (EnvelopeError h.HpkeError) Bytes
  aad ctx = map_err encode (canonical contexts ctx)

  unfoldable pub seal :
      h.Randomness → Bytes → EnvelopeContext → ℕ → Bytes → Result (EnvelopeError h.HpkeError) Sealed
  seal random recipient_public ctx kind payload = do
    plaintext ← pad payloads kind payload
    aad' ← aad ctx
    map_err hpke (h.hpke_seal random recipient_public info aad' plaintext)

  unfoldable pub open_sealed :
      Bytes → EnvelopeContext → Sealed → Result (EnvelopeError h.HpkeError) InnerPayload
  open_sealed recipient_private ctx sealed = do
    aad' ← aad ctx
    plaintext ← map_err hpke (h.hpke_open sealed.enc recipient_private info aad' sealed.ciphertext)
    inner ← map_err decode (payloads.from_reader plaintext)
    refuse_if (not (inner.version == version)) (unsupported_version inner.version)
    ok inner
