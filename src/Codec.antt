-- ===== src/Codec.antt =====
-- core/crates/arveil-core/src/channel/codec.rs: frames encoded within their limit, and padded.
pub mod Frames
pub mod Padded
mod Tests
use Frames.{Frame, Payload}
use arveil.Base.{
  ℕ, zero, suc, ◌+◌, ◌-◌, ◌*◌, Bool, true, false, not, String, Bytes, length, replicate, leb, ltb,
  if◌then◌else◌, Option, none, some, Result, ok, err, ◌>>=◌, ◌>>◌, map_err, refuse_if,
}
use arveil.Cbor.{Cbor, Serde, canonical}

abbrev pub max_frame_bytes : ℕ
max_frame_bytes = 1024 * 1024

abbrev pub watch_frame_bytes : ℕ
watch_frame_bytes = 256

pub data CodecError : Type 0 where
  too_large : ℕ → CodecError
  encode_error decode_error : String → CodecError

pub record PaddedFrame : Type 0 where
  pub id : ℕ
  pub payload : Payload
  pub pad : Bytes

abbrev pub padded_with : Frame → ℕ → PaddedFrame
padded_with frame n = record { id = frame.id; payload = frame.payload; pad = replicate n 0 }

module _ {c : Cbor} (frames : Serde c Frame) where
  unfoldable pub encode : Frame → Result CodecError Bytes
  encode frame = do
    out ← map_err encode_error (canonical frames frame)
    refuse_if (ltb max_frame_bytes (length out)) (too_large (length out))
    ok out

  unfoldable pub decode : Bytes → Result CodecError Frame
  decode bytes = do
    refuse_if (ltb max_frame_bytes (length bytes)) (too_large (length bytes))
    map_err decode_error (frames.from_reader bytes)

  module _ (padded_frames : Serde c PaddedFrame) where
    -- The `loop`, on fuel: `none` once it is used up.
    unfoldable pub pad_loop : ℕ → Frame → ℕ → ℕ → Option (Result CodecError Bytes)
    pad_loop zero frame size n = none
    pad_loop (suc fuel) frame size n =
        let rest = pad_loop fuel frame size (n + 1) in
        elim (map_err encode_error (canonical padded_frames (padded_with frame n))) [
          | err e ↦ some (err e)
          | ok padded ↦
              if ltb max_frame_bytes (length padded)
              then some (err (too_large (length padded)))
              else if leb size (length padded)
              then some (ok padded)
              else rest
        ]

    unfoldable pub encode_padded : ℕ → Frame → ℕ → Option (Result CodecError Bytes)
    encode_padded fuel frame size = elim (encode frame) [
      | err e ↦ some (err e)
      | ok plain ↦
          if leb size (length plain)
          then some (ok plain)
          else pad_loop fuel frame size (size - (length plain + 7))
    ]
