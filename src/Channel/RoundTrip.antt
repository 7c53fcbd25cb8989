-- ===== src/Channel/RoundTrip.antt =====
-- What one end seals the other opens, of core/crates/arveil-core/src/channel/mod.rs.
use arveil.Base.{
  ◌≤◌, ◌<◌, ◌≡◌, subst, refl, ap, ◌∙◌, Bytes, List, [], ◌∷◌, length, All, Option, none, some,
  Result, ok, err, map_ok, arith, Result-cases, inl, inr,
}
use mathlib.Core.List.{append-nil}
use arveil.Cbor.{Cbor, Serde}
use arveil.Codec.{encode, decode, max_frame_bytes}
use arveil.Codec.Frames.{Frame}
use arveil.Fragment.{
  Reassembler, fragments, push, push_all, new, max_noise_message, max_noise_payload,
}
use arveil.Fragment.Pieces.{length-fragments}
use arveil.Fragment.RoundTrip.{push_all-fragments}
use arveil.Channel.{
  Noise, ChannelError, fragment, Transport, Channel, transport_seal, transport_open, seal_fragments,
  seal_bytes, channel_seal, channel_open, channel_new, decoded,
}

-- What the channel relies on: two states that belong together, as after a handshake, carry a payload
-- from one to the other in one message, and belong together afterwards.
pub record Carried (n : Noise) (Paired : n.State → n.State → Type 0) (a b : n.State) (m : Bytes)
    : Type 0 where
  pub message : Bytes
  pub sender : n.State
  pub receiver : n.State
  pub wrote : n.write_message a m ≡ (ok message, sender)
  pub short : length message ≤ max_noise_message
  pub read : n.read_message b message ≡ (ok m, receiver)
  pub paired : Paired sender receiver

pub record NoiseLaws (n : Noise) : Type 1 where
  pub Paired : n.State → n.State → Type 0
  pub carries :
      (a b : n.State) (m : Bytes)
      → Paired a b
      → length m ≤ max_noise_payload
      → Carried n Paired a b m

module _ (n : Noise) (laws : NoiseLaws n) {c : Cbor} (frames : Serde c Frame) where
  -- A run of `open` over the messages that arrive, which ends at the first error: the frames.
  unfoldable pub open_all :
      List Bytes → Channel n → Result (ChannelError n) (List Frame) × Channel n
  open_all [] ch = (ok [], ch)
  open_all (m ∷ ms) ch =
      let (r, ch') = channel_open n frames m ch in
      let (rest, ch'') = open_all ms ch' in
      elim r [
        | err e ↦ (err e, ch')
        | ok none ↦ (rest, ch'')
        | ok (some frame) ↦ (map_ok (◌∷◌ frame) rest, ch'')
      ]

  -- The same on the fragments that the messages carry.
  abbrev received : Bytes → Reassembler → Result (ChannelError n) (Option Frame) × Reassembler
  received f r =
      let (pushed, r') = push r f in
      (elim pushed [ err e ↦ err (fragment e) | ok complete ↦ decoded n frames complete ], r')

  receive_all : List Bytes → Reassembler → Result (ChannelError n) (List Frame) × Reassembler
  receive_all [] r = (ok [], r)
  receive_all (f ∷ fs) r =
      let (result, r') = received f r in
      let (rest, r'') = receive_all fs r' in
      elim result [
        | err e ↦ (err e, r')
        | ok none ↦ (rest, r'')
        | ok (some frame) ↦ (map_ok (◌∷◌ frame) rest, r'')
      ]

  seal_step :
      (t : Transport n) (b : n.State) (f : Bytes)
      → (k : Carried n laws.Paired t.state b f) → length f ≤ max_noise_payload
      → transport_seal n t f ≡ (ok k.message, record t { state = k.sender })
  unfolding transport_seal
  seal_step t b f k h = ground (arith, k.wrote)

  transport_opens :
      (a : n.State) (t : Transport n) (f : Bytes)
      → (k : Carried n laws.Paired a t.state f)
      → transport_open n t k.message ≡ (ok f, record t { state = k.receiver })
  unfolding transport_open
  transport_opens a t f k = ground (arith, k.read, k.short)

  open_step :
      (a : n.State) (t : Transport n) (r : Reassembler) (f : Bytes)
      → (k : Carried n laws.Paired a t.state f)
      → channel_open n frames k.message (record { transport = t; reassembler = r }) ≡ (
        (received f r).0,
        record { transport = record t { state = k.receiver }; reassembler = (received f r).1 },
      )
  unfolding channel_open
  open_step a t r f k =
      rw (transport_opens a t f k, channel_open)
        (elim (Result-cases (push r f).0) [
          | inl (x, e) ↦ rw e (rw (transport_opens a t f k) (rw (e, received) refl))
          | inr (x, e) ↦ rw e (rw (transport_opens a t f k) (rw (e, received) refl))
        ])

  receive_all_nothing :
      (fs : List Bytes) (r r' : Reassembler)
      → push_all r fs ≡ (ok [], r')
      → receive_all fs r ≡ (ok [], r')
  unfolding receive_all push_all
  receive_all_nothing [] r r' p = ground (arith, p)
  receive_all_nothing (f ∷ fs) r r' p = elim (Result-cases (push r f).0) [
    | inr (x, e) ↦ absurd (ground (arith, e, p))
    | inl (none, e) ↦ ground (arith, e, p, receive_all_nothing fs (push r f).1 r')
    | inl (some x, e) ↦ elim (Result-cases (push_all (push r f).1 fs).0) [
      | inl (t, e') ↦ absurd (ground (arith, e, p, e'))
      | inr (t, e') ↦ absurd (ground (arith, e, p, e'))
    ]
  ]

  receive_all-push_all :
      (frame : Frame) (bytes : Bytes) (fs : List Bytes) (r r' : Reassembler)
      → decode frames bytes ≡ ok frame
      → push_all r fs ≡ (ok (bytes ∷ []), r')
      → receive_all fs r ≡ (ok (frame ∷ []), r')
  unfolding receive_all push_all
  receive_all-push_all frame bytes [] r r' h p = absurd (ground (arith, p))
  receive_all-push_all frame bytes (f ∷ fs) r r' h p = elim (Result-cases (push r f).0) [
    | inr (x, e) ↦ absurd (ground (arith, e, p))
    | inl (none, e) ↦ ground (arith, e, p, receive_all-push_all frame bytes fs (push r f).1 r' h)
    | inl (some x, e) ↦ elim (Result-cases (push_all (push r f).1 fs).0) [
      | inl (t, e') ↦ ground (arith, h, e, p, e', receive_all_nothing fs (push r f).1 r')
      | inr (t, e') ↦ absurd (ground (arith, e, p, e'))
    ]
  ]

  -- What became of fragments that were sealed at one end and opened at the other.
  record Sent (fs : List Bytes) (t : Transport n) (ch : Channel n) : Type 0 where
    messages : List Bytes
    sender : Transport n
    sealed : seal_fragments n fs t ≡ (ok messages, sender)
    opened : (open_all messages ch).0 ≡ (receive_all fs ch.reassembler).0

  send :
      (fs : List Bytes) (t : Transport n) (ch : Channel n)
      → laws.Paired t.state ch.transport.state
      → All (λ f. length f ≤ max_noise_payload) fs
      → Sent fs t ch
  unfolding seal_fragments open_all receive_all
  send [] t ch paired small = record { messages = []; sender = t; sealed = refl; opened = refl }
  send (f ∷ fs) t ch paired small =
      let k = laws.carries t.state ch.transport.state f paired small.0 in
      let step = open_step t.state ch.transport ch.reassembler f k in
      let after : Channel n = record {
        transport = record ch.transport { state = k.receiver };
        reassembler = (push ch.reassembler f).1;
      } in
      let rest = send fs (record t { state = k.sender }) after k.paired small.1 in
      record {
        messages = k.message ∷ rest.messages;
        sender = rest.sender;
        sealed = ground (arith, seal_step t ch.transport.state f k small.0, rest.sealed);
        opened = elim (Result-cases (push ch.reassembler f).0) [
          | inl (x, e) ↦ ground (arith, step, e, rest.opened)
          | inr (x, e) ↦ ground (arith, step, e, rest.opened)
        ];
      }

  within_payload :
      (fs : List Bytes)
      → All (λ f. (0 < length f) × (length f ≤ max_noise_payload)) fs
      → All (λ f. length f ≤ max_noise_payload) fs
  within_payload [] h = tt
  within_payload (f ∷ fs) h = (h.0.1, within_payload fs h.1)

  decoded_length :
      (bytes : Bytes) (frame : Frame)
      → decode frames bytes ≡ ok frame
      → length bytes ≤ max_frame_bytes
  unfolding decode
  decoded_length bytes frame h = ground (arith, h)

  -- A frame that encodes to bytes that decode to it is sealed into messages, and the other end of
  -- the session, between two frames, opens these messages in order to just this frame.
  pub open_all-channel_seal :
      (frame : Frame) (bytes : Bytes) (a : Channel n) (t : Transport n)
      → encode frames frame ≡ ok bytes
      → decode frames bytes ≡ ok frame
      → laws.Paired a.transport.state t.state
      → (messages : List Bytes) × ((channel_seal n frames frame a).0 ≡ ok messages)
        × ((open_all messages (channel_new n t)).0 ≡ ok (frame ∷ []))
  unfolding channel_seal seal_bytes
  open_all-channel_seal frame bytes a t encodes decodes paired =
      let sent =
        send (fragments bytes) a.transport (channel_new n t) paired
          (within_payload (fragments bytes) (length-fragments bytes)) in
      let whole =
        push_all-fragments max_frame_bytes (bytes ∷ []) (decoded_length bytes frame decodes, tt) in
      let one : push_all (new max_frame_bytes) (fragments bytes)
          ≡ (ok (bytes ∷ []), new max_frame_bytes) =
        subst (λ fs. push_all (new max_frame_bytes) fs ≡ (ok (bytes ∷ []), new max_frame_bytes))
          (append-nil (fragments bytes)) whole in
      (
        sent.messages,
        ground (arith, encodes, sent.sealed),
        sent.opened
            ∙ ap (λ (p : Result (ChannelError n) (List Frame) × Reassembler). p.0)
                (receive_all-push_all frame bytes (fragments bytes) (new max_frame_bytes)
                  (new max_frame_bytes) decodes one),
      )
