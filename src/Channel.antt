-- ===== src/Channel.antt =====
-- core/crates/arveil-core/src/channel/mod.rs and the transport of channel/noise.rs: frames sealed
-- into Noise messages and opened again. The crate snow stands outside, as the fields of an interface.
pub mod RoundTrip
mod Tests
use arveil.Base.{
  ℕ, Bytes, String, List, [], ◌∷◌, length, ltb, if◌then◌else◌, Option, none, some, Result, ok, err,
  map_err,
}
use arveil.Cbor.{Cbor, Serde}
use arveil.Codec.{PaddedFrame, CodecError, encode, decode, encode_padded, max_frame_bytes}
use arveil.Codec.Frames.{Frame}
use arveil.Fragment.{Reassembler, FragmentError, fragments, max_noise_message, max_noise_payload}

-- snow's transport, whose state counts the messages.
pub record Noise : Type 1 where
  pub State : Type 0
  pub SnowError : Type 0
  pub write_message : State → Bytes → Result SnowError Bytes × State
  pub read_message : State → Bytes → Result SnowError Bytes × State

module _ (n : Noise) where
  pub data NoiseError : Type 0 where
    payload_too_large : ℕ → NoiseError
    snow : n.SnowError → NoiseError
    unexpected_handshake_payload : NoiseError

  pub data ChannelError : Type 0 where
    noise : NoiseError → ChannelError
    fragment : FragmentError → ChannelError
    codec : CodecError → ChannelError

  pub record Transport : Type 0 where
    pub state : n.State
    pub handshake_hash : Bytes

  unfoldable pub transport_seal : Transport → Bytes → Result NoiseError Bytes × Transport
  transport_seal t payload =
      if ltb max_noise_payload (length payload)
      then (err (payload_too_large (length payload)), t)
      else let (r, state) = n.write_message t.state payload in
        (map_err snow r, record t { state = state })

  unfoldable pub transport_open : Transport → Bytes → Result NoiseError Bytes × Transport
  transport_open t message =
      if ltb max_noise_message (length message)
      then (err (payload_too_large (length message)), t)
      else let (r, state) = n.read_message t.state message in
        (map_err snow r, record t { state = state })

  pub record Channel : Type 0 where
    pub transport : Transport
    pub reassembler : Reassembler

  abbrev pub channel_new : Transport → Channel
  channel_new transport = record {
    transport = transport;
    reassembler = arveil.Fragment.new max_frame_bytes;
  }

  -- `map(…).collect()` over the fragments, which ends at the first error.
  unfoldable pub seal_fragments :
      List Bytes → Transport → Result ChannelError (List Bytes) × Transport
  seal_fragments [] t = (ok [], t)
  seal_fragments (f ∷ fs) t =
      let (r, t') = transport_seal t f in
      let (rest, t'') = seal_fragments fs t' in
      elim r [
        | err e ↦ (err (noise e), t')
        | ok message ↦ (arveil.Base.map_ok (◌∷◌ message) rest, t'')
      ]

  unfoldable pub seal_bytes : Bytes → Channel → Result ChannelError (List Bytes) × Channel
  seal_bytes bytes ch =
      let (r, t) = seal_fragments (fragments bytes) ch.transport in (r, record ch { transport = t })

  module _ {c : Cbor} (frames : Serde c Frame) where
    unfoldable pub channel_seal : Frame → Channel → Result ChannelError (List Bytes) × Channel
    channel_seal frame ch = elim (encode frames frame) [
      | err e ↦ (err (codec e), ch)
      | ok bytes ↦ seal_bytes bytes ch
    ]

    -- The decoded frame, once its last fragment has arrived.
    abbrev pub decoded : Option Bytes → Result ChannelError (Option Frame)
    decoded none = ok none
    decoded (some bytes) = arveil.Base.map_ok some (map_err codec (decode frames bytes))

    unfoldable pub channel_open : Bytes → Channel → Result ChannelError (Option Frame) × Channel
    channel_open message ch =
        let (r, t) = transport_open ch.transport message in
        elim r [
          | err e ↦ (err (noise e), record ch { transport = t })
          | ok fragment' ↦
              let (pushed, reassembler) = arveil.Fragment.push ch.reassembler fragment' in
              let after : Channel = record { transport = t; reassembler = reassembler } in
              elim pushed [
                | err e ↦ (err (fragment e), after)
                | ok complete ↦ (decoded complete, after)
              ]
        ]

    -- `seal_padded`, with the fuel of `encode_padded`: `none` once it is used up.
    unfoldable pub seal_padded :
        Serde c PaddedFrame
        → ℕ
        → Frame
        → ℕ
        → Channel
        → Option (Result ChannelError (List Bytes) × Channel)
    seal_padded padded_frames fuel frame size ch =
        elim (encode_padded frames padded_frames fuel frame size) [
          | none ↦ none
          | some (err e) ↦ some (err (codec e), ch)
          | some (ok bytes) ↦ some (seal_bytes bytes ch)
        ]
