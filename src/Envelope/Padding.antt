-- ===== src/Envelope/Padding.antt =====
-- The padding loop of core/crates/arveil-core/src/envelope.rs.
use arveil.Base.{
  ℕ, suc, ◌+◌, ◌-◌, ◌≤◌, ◌<◌, ◌≡◌, ◌≢◌, ◌⊎◌, inl, inr, refl, ap, ◌∙◌, Bool, true, false, ◌||◌,
  Bytes, length, replicate, ltb, ◌==◌, ==_iff, if◌then◌else◌, ok, err, arith,
}
use arveil.Cbor.{Cbor, Serde, canonical}
use arveil.Envelope.{
  encode, too_large, InnerPayload, version, bucket_for, inner_padding_overhead, next_pad_len,
  converge, pad,
}
use arveil.Envelope.Buckets.{bucket_fits, bucket_max, bucket_for_lem}

-- The header of a CBOR byte string of that many bytes (RFC 8949, section 3).
abbrev pub byte_string_header : ℕ → ℕ
byte_string_header n =
    if ltb n 24
    then 1
    else if ltb n 256
    then 2
    else if ltb n 65536
    then 3
    else if ltb n 4294967296
    then 5
    else 9

abbrev pub inner_of : ℕ → Bytes → ℕ → InnerPayload
inner_of kind payload n = record {
  version = version;
  kind = kind;
  payload = payload;
  padding = replicate n 0;
}

-- What the loop relies on: payloads are written, and the padding takes its bytes and the header of
-- a byte string of its length; all else takes as many bytes, whatever the padding is.
pub record PaddingLaws {c : Cbor} (payloads : Serde c InnerPayload) : Type 0 where
  pub bytes : ℕ → Bytes → ℕ → Bytes
  pub frame : ℕ → Bytes → ℕ
  pub writes :
      (kind : ℕ) (payload : Bytes) (n : ℕ)
      → canonical payloads (inner_of kind payload n) ≡ ok (bytes kind payload n)
  pub length_bytes :
      (kind : ℕ) (payload : Bytes) (n : ℕ)
      → length (bytes kind payload n) ≡ frame kind payload + byte_string_header n + n

-- What padding for `q` more bytes really adds.
unfoldable pub added : ℕ → ℕ
added q = let n = q - inner_padding_overhead q in byte_string_header n + n - 1

-- No byte string, header included, is as much longer than an empty one.
abbrev pub is_unreachable : ℕ → Bool
is_unreachable gap = gap == 24 || gap == 257 || gap == 65538 || gap == 65539

-- Two rounds are enough.
added-cases :
    (g : ℕ)
    → g < 262144
    → is_unreachable g ≡ false
    → (added g ≡ g) ⊎ ((added g < g) × (added (g + g - added g) ≡ g))
unfolding added inner_padding_overhead
added-cases g b h = ground arith

-- Four rounds do not end when two pad lengths follow each other in turn.
abbrev Alternates : ℕ → ℕ → Type 0
Alternates g q =
    (added g ≢ g)
    × (added q ≢ g)
    × (g + g - added g ≡ q)
    × (q + g - added q ≡ g)
    × (added g ≤ g + g)
    × (added q ≤ q + g)

unreachable-Alternates : (g : ℕ) → is_unreachable g ≡ true → (q : ℕ) × Alternates g q
unfolding added inner_padding_overhead
unreachable-Alternates g h =
    (g + g - added g, (ground arith, ground arith, refl, ground arith, ground arith, ground arith))

next_pad_len_lem :
    (q g size a target : ℕ)
    → size + g ≡ target
    → a ≤ q + g
    → next_pad_len q target (size + a) ≡ q + g - a
unfolding next_pad_len
next_pad_len_lem q g size a target h k = ground arith

module _ {c : Cbor} (payloads : Serde c InnerPayload) (laws : PaddingLaws payloads) (kind : ℕ)
    (payload : Bytes) where
  -- The bytes with no padding.
  abbrev pub size : ℕ
  size = length (laws.bytes kind payload 0)

  -- And with what a round pads.
  abbrev padded_bytes : ℕ → Bytes
  padded_bytes q = laws.bytes kind payload (q - inner_padding_overhead q)

  length-added : (q : ℕ) → length (padded_bytes q) ≡ size + added q
  unfolding added
  length-added q = ground (
    arith,
    laws.length_bytes kind payload 0,
    laws.length_bytes kind payload (q - inner_padding_overhead q),
  )

  module _ {E : Type 0} where
    converge_ends :
        (k target q m : ℕ)
        → size + added q ≡ target
        → converge payloads {E = E} (suc k) target q (inner_of kind payload m) ≡ ok (padded_bytes q)
    unfolding converge
    converge_ends k target q m h =
        let same : (length (padded_bytes q) == target) ≡ true =
          ground (arith, length-added q, ==_iff (length (padded_bytes q)) target) in
        ground (arith, laws.writes kind payload (q - inner_padding_overhead q))

    converge_repeats :
        (k g target q m : ℕ)
        → size + g ≡ target
        → added q ≢ g
        → added q ≤ q + g
        → converge payloads {E = E} (suc k) target q (inner_of kind payload m)
          ≡ converge payloads k target
              (q + g - added q)
              (inner_of kind payload (q - inner_padding_overhead q))
    unfolding converge
    converge_repeats k g target q m h differs fits =
        let wrong : (length (padded_bytes q) == target) ≡ false =
          ground (arith, length-added q, ==_iff (length (padded_bytes q)) target) in
        let next : next_pad_len q target (length (padded_bytes q)) ≡ q + g - added q =
          rw (length-added q) (next_pad_len_lem q g size (added q) target h fits) in
        ground (arith, laws.writes kind payload (q - inner_padding_overhead q))

    pad_starts :
        (target : ℕ)
        → bucket_for {E = E} size ≡ ok target
        → pad payloads {E = E} kind payload
          ≡ converge payloads 4 target (target - size) (inner_of kind payload 0)
    unfolding pad
    pad_starts target h = ground (arith, laws.writes kind payload 0)

    pad_ends :
        (target : ℕ)
        → bucket_for {E = E} size ≡ ok target
        → is_unreachable (target - size) ≡ false
        → (n : ℕ) × (pad payloads {E = E} kind payload ≡ ok (laws.bytes kind payload n))
          × (length (laws.bytes kind payload n) ≡ target)
    pad_ends target h reachable =
        let g = target - size in
        let fits = (bucket_fits {E = E} size target h).0 in
        let whole : size + g ≡ target = omega (arith, fits) in
        let small : g < 262144 =
          ground (arith, laws.length_bytes kind payload 0, bucket_max {E = E} size target h) in
        elim (added-cases g small reachable) [
          | inl once ↦ (
            g - inner_padding_overhead g,
            pad_starts target h ∙ converge_ends 3 target g 0 (omega (arith, once, whole)),
            omega (arith, length-added g, once, whole),
          )
          | inr twice ↦
              let q = g + g - added g in
              (
                q - inner_padding_overhead q,
                pad_starts target h
                    ∙ converge_repeats 3 g target g 0 whole (ground (arith, twice.0))
                        (omega (arith, twice.0))
                    ∙ converge_ends 2 target q (g - inner_padding_overhead g)
                        (omega (arith, twice.1, whole)),
                omega (arith, length-added q, twice.1, whole),
              )
        ]

    gives_up :
        (target q : ℕ) (inner : InnerPayload)
        → converge payloads {E = E} 0 target q inner ≡ err (encode "padding did not converge")
    unfolding converge
    gives_up target q inner = refl

    pad_stuck :
        (target : ℕ)
        → bucket_for {E = E} size ≡ ok target
        → is_unreachable (target - size) ≡ true
        → pad payloads {E = E} kind payload ≡ err (encode "padding did not converge")
    pad_stuck target h unreachable =
        let g = target - size in
        let fits = (bucket_fits {E = E} size target h).0 in
        let whole : size + g ≡ target = omega (arith, fits) in
        let (q, (differs, differs', up, down, room, room')) =
          unreachable-Alternates g unreachable in
        pad_starts target h
        ∙ converge_repeats 3 g target g 0 whole differs room
        ∙ ap
            (λ n.
              converge payloads {E = E} 3 target n
                (inner_of kind payload (g - inner_padding_overhead g)))
            up
        ∙ converge_repeats 2 g target q _ whole differs' room'
        ∙ ap
            (λ n.
              converge payloads {E = E} 2 target n
                (inner_of kind payload (q - inner_padding_overhead q)))
            down
        ∙ converge_repeats 1 g target g _ whole differs room
        ∙ ap
            (λ n.
              converge payloads {E = E} 1 target n
                (inner_of kind payload (g - inner_padding_overhead g)))
            up
        ∙ converge_repeats 0 g target q _ whole differs' room'
        ∙ gives_up target _ _

    -- What `pad` does with a payload of any size. Where a bucket holds the encoded payload, the loop
    -- ends with the payload padded to just that bucket, unless the bytes missing to the bucket are
    -- 24, 257, 65538 or 65539: then it gives up. A payload above all buckets is too large.
    pub pad_lem :
        ((target : ℕ)
          → bucket_for {E = E} size ≡ ok target
          → (is_unreachable (target - size) ≡ false
              → (n : ℕ) × (pad payloads {E = E} kind payload ≡ ok (laws.bytes kind payload n))
                × (length (laws.bytes kind payload n) ≡ target))
            × (is_unreachable (target - size) ≡ true
                → pad payloads {E = E} kind payload ≡ err (encode "padding did not converge")))
        × (262144 < size → pad payloads {E = E} kind payload ≡ err (too_large size))
    unfolding pad
    pad_lem = (
      λ target h. (pad_ends target h, pad_stuck target h),
      λ large. ground (arith, laws.writes kind payload 0, (bucket_for_lem {E = E} size).2 large),
    )
