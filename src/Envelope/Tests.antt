-- ===== src/Envelope/Tests.antt =====
-- Runs of the envelope over a small HPKE, and the theorems at concrete inputs.
use arveil.Base.{
  ℕ, ◌+◌, ◌-◌, ◌≡◌, refl, String, [], ◌∷◌, ◌++◌, Bytes, length, length-append, length-replicate,
  zero, suc, replicate, drop, Result, ok, err, arith,
}
use arveil.Cbor.{Serde, canonical, sort_maps, ReadsBack}
use arveil.Sample.{cbor, serde, serde-ReadsBack, put, get, get-put}
use arveil.Envelope.{
  InnerPayload, EnvelopeContext, Sealed, Hpke, new, version, kind_mls, buckets, bucket_for,
  inner_padding_overhead, pad, converge, seal, open_sealed, encode,
}
use arveil.Envelope.Padding.{PaddingLaws, byte_string_header, inner_of, pad_lem}
use arveil.Envelope.Sealing.{HpkeLaws, open_sealed-seal}

-- The padding stands last, behind a header of its length.
abbrev header : ℕ → Bytes
header n = n ∷ replicate (byte_string_header n - 1) 0

abbrev put_inner : InnerPayload → Bytes
put_inner i = i.version ∷ i.kind ∷ put i.payload (header (length i.padding) ++ i.padding)

abbrev get_padding : Bytes → Bytes
get_padding [] = []
get_padding (n ∷ rest) = drop (byte_string_header n - 1) rest

abbrev get_inner : Bytes → Result String InnerPayload
get_inner (version ∷ kind ∷ bytes) =
    let (payload, rest) = get bytes in
    ok (record { version = version; kind = kind; payload = payload; padding = get_padding rest })
get_inner _ = err "payload"

abbrev payloads : Serde cbor InnerPayload
payloads = serde put_inner get_inner

drop-replicate : (n : ℕ) (xs : Bytes) → drop n (replicate n 0 ++ xs) ≡ xs
drop-replicate zero xs = refl
drop-replicate (suc n) xs = drop-replicate n xs

payloads-ReadsBack : ReadsBack payloads
payloads-ReadsBack = serde-ReadsBack put_inner get_inner (λ i. simp (get-put, drop-replicate))

payloads_write :
    (kind : ℕ) (payload : Bytes) (n : ℕ)
    → canonical payloads (inner_of kind payload n) ≡ ok (put_inner (inner_of kind payload n))
unfolding canonical sort_maps
payloads_write kind payload n = refl

length-put_inner :
    (kind : ℕ) (payload : Bytes) (n : ℕ)
    → length (put_inner (inner_of kind payload n)) ≡ 3 + length payload + byte_string_header n + n
unfolding put
length-put_inner kind payload n = rw (length-replicate {A = ℕ} n 0) (
    ground (
      arith,
      length-append {A = ℕ} payload (header n ++ replicate n 0),
      length-append {A = ℕ} (replicate (byte_string_header n - 1) 0) (replicate n 0),
      length-replicate {A = ℕ} (byte_string_header n - 1) 0,
      length-replicate {A = ℕ} n 0,
    ))

abbrev payloads_padding : PaddingLaws payloads
payloads_padding = record {
  bytes = λ kind payload n. put_inner (inner_of kind payload n);
  frame = λ kind payload. 3 + length payload;
  writes = payloads_write;
  length_bytes = length-put_inner;
}

abbrev contexts : Serde cbor EnvelopeContext
contexts =
    serde (λ ctx. ctx.version ∷ put ctx.realm_id (put ctx.mailbox_id ctx.delivery_id))
      (λ bytes. err "not read")

-- Sealing only adds 16 bytes, the first of which names the recipient.
abbrev hpke : Hpke
hpke = record {
  HpkeError = String;
  Randomness = ℕ;
  hpke_seal = λ random public info context message.
      ok (record { enc = random ∷ []; ciphertext = replicate 16 0 ++ message });
  hpke_open = λ enc private info context ciphertext. ok (drop 16 ciphertext);
}

abbrev hpke_laws : HpkeLaws hpke
hpke_laws = record {
  public_of = λ private. private;
  sealed_as = λ random public info context message. record {
    enc = random ∷ [];
    ciphertext = replicate 16 0 ++ message;
  };
  seals = λ random private context message. refl;
  length_sealed = λ random public context message. omega arith;
  opens = λ random private context message. refl;
}

abbrev hello : Bytes
hello = 104 ∷ 105 ∷ []

-- 24 bytes short of the first bucket.
abbrev unlucky : Bytes
unlucky = replicate 228 7

unlucky_is_refused :
    pad payloads {E = String} kind_mls unlucky ≡ err (encode "padding did not converge")
unfolding bucket_for arveil.Envelope.find_bucket put
unlucky_is_refused =
    ((pad_lem payloads payloads_padding kind_mls unlucky {E = String}).0 256 refl).1 refl

pad_lem_example :
    (n : ℕ) × (pad payloads {E = String} kind_mls hello
      ≡ ok (put_inner (inner_of kind_mls hello n)))
    × (length (put_inner (inner_of kind_mls hello n)) ≡ 256)
unfolding bucket_for arveil.Envelope.find_bucket put
pad_lem_example =
    ((pad_lem payloads payloads_padding kind_mls hello {E = String}).0 256 refl).0 refl

open_sealed-seal_example :
    (sealed : Sealed) × (seal hpke contexts payloads 3 (1 ∷ []) (new [] [] []) kind_mls hello
      ≡ ok sealed)
    × (length sealed.ciphertext ≡ 272)
    × ((n : ℕ) × (open_sealed hpke contexts payloads (1 ∷ []) (new [] [] []) sealed
          ≡ ok (inner_of kind_mls hello n)))
unfolding bucket_for arveil.Envelope.find_bucket put canonical sort_maps
open_sealed-seal_example =
    open_sealed-seal hpke hpke_laws contexts payloads payloads_padding payloads-ReadsBack kind_mls
      hello 3 (1 ∷ []) (new [] [] []) _ 256 refl refl refl
