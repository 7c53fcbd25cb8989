-- ===== src/Codec/Padded.antt =====
-- Padded frames of core/crates/arveil-core/src/channel/codec.rs.
use arveil.Base.{
  ℕ, suc, ◌+◌, ◌-◌, ◌≤◌, ◌<◌, ◌≡◌, ◌⊎◌, refl, ◌∙◌, true, false, Bytes, length, leb, ltb,
  if◌then◌else◌, some, ok, err, arith, inl, inr,
}
use arveil.Cbor.{Cbor, Serde, canonical}
use arveil.Codec.Frames.{Frame}
use arveil.Codec.{
  PaddedFrame, padded_with, too_large, max_frame_bytes, encode, decode, pad_loop, encode_padded,
}
use arveil.Envelope.Padding.{byte_string_header}

-- What padding relies on, for a frame: both of its forms are written, the field `pad` takes the 4
-- bytes of its key and a byte string, and a reader passes over it.
pub record PadLaws {c : Cbor} (frames : Serde c Frame) (padded_frames : Serde c PaddedFrame)
    (frame : Frame) : Type 0 where
  pub plain : Bytes
  pub padded : ℕ → Bytes
  pub writes : canonical frames frame ≡ ok plain
  pub writes_padded : (n : ℕ) → canonical padded_frames (padded_with frame n) ≡ ok (padded n)
  pub length_padded : (n : ℕ) → length (padded n) ≡ length plain + 4 + byte_string_header n + n
  pub reads_padded : (n : ℕ) → frames.from_reader (padded n) ≡ ok frame

module _ {c : Cbor} (frames : Serde c Frame) (padded_frames : Serde c PaddedFrame) (frame : Frame)
    (laws : PadLaws frames padded_frames frame) where
  -- A round of the loop.
  round :
      (fuel size n : ℕ)
      → pad_loop frames padded_frames (suc fuel) frame size n ≡ (
          if ltb max_frame_bytes (length (laws.padded n))
          then some (err (too_large (length (laws.padded n))))
          else if leb size (length (laws.padded n))
          then some (ok (laws.padded n))
          else pad_loop frames padded_frames fuel frame size (n + 1))
  unfolding pad_loop
  round fuel size n = ground (arith, laws.writes_padded n)

  -- The length that a padding of `n` bytes gives.
  abbrev reach : ℕ → ℕ
  reach n = length laws.plain + 4 + byte_string_header n + n

  loop_ends :
      (fuel size n : ℕ)
      → size ≤ reach n
      → reach n ≤ max_frame_bytes
      → pad_loop frames padded_frames (suc fuel) frame size n ≡ some (ok (laws.padded n))
  loop_ends fuel size n long small =
      let found = laws.length_padded n in
      let within : ltb max_frame_bytes (length (laws.padded n)) ≡ false = ground (arith, found) in
      let enough : leb size (length (laws.padded n)) ≡ true = ground (arith, found) in
      round fuel size n ∙ rw within (rw enough refl)

  loop_goes_on :
      (fuel size n : ℕ)
      → reach n < size
      → reach n ≤ max_frame_bytes
      → pad_loop frames padded_frames (suc fuel) frame size n
        ≡ pad_loop frames padded_frames fuel frame size (n + 1)
  loop_goes_on fuel size n short small =
      let found = laws.length_padded n in
      let within : ltb max_frame_bytes (length (laws.padded n)) ≡ false = ground (arith, found) in
      let lacking : leb size (length (laws.padded n)) ≡ false = ground (arith, found) in
      round fuel size n ∙ rw within (rw lacking refl)

  -- The three lengths that the loop tries.
  tries :
      (size : ℕ)
      → length laws.plain < size
      → size + 4 ≤ max_frame_bytes
      → let n = size - (length laws.plain + 7) in
        ((size ≤ reach n) × (reach n ≤ size + 4))
        ⊎ ((reach n < size) × (size ≤ reach (n + 1)) × (reach (n + 1) ≤ size + 4))
        ⊎ ((reach n < size)
            × (reach (n + 1) < size)
            × (size ≤ reach (n + 1 + 1))
            × (reach (n + 1 + 1) ≤ size + 4))
  tries size h small = ground arith

  shorter :
      (size m : ℕ)
      → m < size - (length laws.plain + 7)
      → size < length laws.plain + 65536
      → reach m < size
  shorter size m h k = ground arith

  pad_loop_ends :
      (size : ℕ)
      → length laws.plain < size
      → size + 4 ≤ max_frame_bytes
      → (n : ℕ) × (pad_loop frames padded_frames 3 frame size (size - (length laws.plain + 7))
          ≡ some (ok (laws.padded n)))
        × (size ≤ reach n)
        × (reach n ≤ size + 4)
        × ((m : ℕ) → m < n → size < length laws.plain + 65536 → reach m < size)
  pad_loop_ends size h small =
      let n = size - (length laws.plain + 7) in
      elim (tries size h small) [
        | inl (long, close) ↦ (n, loop_ends 2 size n long (omega arith), long, close, shorter size)
        | inr (inl (short, long, close)) ↦ (
          n + 1,
          loop_goes_on 2 size n short (omega arith) ∙ loop_ends 1 size (n + 1) long (omega arith),
          long,
          close,
          λ m below bound. ground arith,
        )
        | inr (inr (short, short', long, close)) ↦ (
          n + 1 + 1,
          loop_goes_on 2 size n short (omega arith)
              ∙ loop_goes_on 1 size (n + 1) short' (omega arith)
              ∙ loop_ends 0 size (n + 1 + 1) long (omega arith),
          long,
          close,
          λ m below bound. ground arith,
        )
      ]

  decode-padded :
      (n : ℕ) → length (laws.padded n) ≤ max_frame_bytes → decode frames (laws.padded n) ≡ ok frame
  unfolding decode
  decode-padded n h = ground (arith, laws.reads_padded n)

  -- `encode_padded` with three rounds of fuel, for every frame and size. A frame above the limit is
  -- too large; a frame of the size already is left as it is; any other, where the size leaves 4
  -- bytes to the limit, gets a padding that reaches the size and exceeds it by at most 4 bytes, the
  -- shortest one where less than 65536 bytes are missing, and reads back as the same frame.
  pub encode_padded_lem :
      (size : ℕ)
      → (max_frame_bytes < length laws.plain
          → encode_padded frames padded_frames 3 frame size
            ≡ some (err (too_large (length laws.plain))))
        × (length laws.plain ≤ max_frame_bytes
            → size ≤ length laws.plain
            → encode_padded frames padded_frames 3 frame size ≡ some (ok laws.plain))
        × (length laws.plain < size
            → size + 4 ≤ max_frame_bytes
            → (n : ℕ) × (encode_padded frames padded_frames 3 frame size
                ≡ some (ok (laws.padded n)))
              × (size ≤ length (laws.padded n))
              × (length (laws.padded n) ≤ size + 4)
              × ((m : ℕ) → m < n → size < length laws.plain + 65536 → length (laws.padded m) < size)
              × (decode frames (laws.padded n) ≡ ok frame))
  unfolding encode_padded encode
  encode_padded_lem size = (
    λ large. ground (arith, laws.writes),
    λ fits long. ground (arith, laws.writes),
    λ short small.
        let (n, found, long, close, least) = pad_loop_ends size short small in
        let is_long = laws.length_padded n in
        (
          n,
          ground (arith, laws.writes, found),
          omega (arith, long, is_long),
          omega (arith, close, is_long),
          λ m below near. omega (arith, least m below near, laws.length_padded m),
          decode-padded n (omega (arith, close, is_long)),
        ),
  )
