-- ===== src/Codec/Tests.antt =====
-- The padding of frames at concrete inputs, over a writer that knows the notices of a watch.
use arveil.Base.{
  ℕ, ◌+◌, ◌≡◌, ◌≤◌, ◌<◌, refl, String, [], ◌∷◌, ◌++◌, some, ok, err, Bytes, length, length-append,
  length-replicate, replicate, arith, Result,
}
use arveil.Cbor.{Serde, canonical, sort_maps}
use arveil.Sample.{cbor, serde}
use arveil.Envelope.Padding.{byte_string_header}
use arveil.Codec.Frames.{Frame, mailbox_wakeup}
use arveil.Codec.{PaddedFrame, padded_with, encode_padded, decode, watch_frame_bytes}
use arveil.Codec.Padded.{PadLaws, encode_padded_lem}

abbrev notice : Frame
notice = record { id = 0; payload = mailbox_wakeup }

-- A key of 4 bytes, a header and the bytes.
abbrev put_pad : Bytes → Bytes
put_pad pad = 3 ∷ 112 ∷ 97 ∷ 100 ∷ (replicate (byte_string_header (length pad)) 0 ++ pad)

abbrev get_notice : Bytes → Result String Frame
get_notice (id ∷ rest) = ok (record { id = id; payload = mailbox_wakeup })
get_notice _ = err "frame"

abbrev frames : Serde cbor Frame
frames = serde (λ f. f.id ∷ []) get_notice

abbrev padded_frames : Serde cbor PaddedFrame
padded_frames = serde (λ f. f.id ∷ put_pad f.pad) (λ bytes. err "not read")

notice_written : canonical frames notice ≡ ok (0 ∷ [])
unfolding canonical sort_maps
notice_written = refl

padded_written :
    (n : ℕ) → canonical padded_frames (padded_with notice n) ≡ ok (0 ∷ put_pad (replicate n 0))
unfolding canonical sort_maps
padded_written n = refl

length-put_pad : (n : ℕ) → length (0 ∷ put_pad (replicate n 0)) ≡ 1 + 4 + byte_string_header n + n
length-put_pad n = rw (length-replicate {A = ℕ} n 0) (
    ground (
      arith,
      length-append {A = ℕ} (replicate (byte_string_header n) 0) (replicate n 0),
      length-replicate {A = ℕ} (byte_string_header n) 0,
      length-replicate {A = ℕ} n 0,
    ))

abbrev notice_laws : PadLaws frames padded_frames notice
notice_laws = record {
  plain = 0 ∷ [];
  padded = λ n. 0 ∷ put_pad (replicate n 0);
  writes = notice_written;
  writes_padded = padded_written;
  length_padded = length-put_pad;
  reads_padded = λ n. refl;
}

encode_padded_lem_example :
    (n : ℕ) × (encode_padded frames padded_frames 3 notice watch_frame_bytes
      ≡ some (ok (0 ∷ put_pad (replicate n 0))))
    × (watch_frame_bytes ≤ length (0 ∷ put_pad (replicate n 0)))
    × (length (0 ∷ put_pad (replicate n 0)) ≤ 260)
    × ((m : ℕ)
        → m < n
        → watch_frame_bytes < 65537
        → length (0 ∷ put_pad (replicate m 0)) < watch_frame_bytes)
    × (decode frames (0 ∷ put_pad (replicate n 0)) ≡ ok notice)
encode_padded_lem_example =
    (encode_padded_lem frames padded_frames notice notice_laws watch_frame_bytes).2 (omega arith)
      (omega arith)
