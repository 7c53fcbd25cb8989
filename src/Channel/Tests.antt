-- ===== src/Channel/Tests.antt =====
-- A session over a transport that counts its messages, and the round trip at a concrete frame.
use arveil.Base.{
  ℕ, ◌+◌, ◌≡◌, refl, String, List, [], ◌∷◌, Bytes, ok, err, ◌==◌, ==_iff, if◌then◌else◌, arith,
  Result,
}
use arveil.Codec.{encode, decode}
use arveil.Codec.Frames.{Frame, ping}
use arveil.Cbor.{Serde, canonical, sort_maps}
use arveil.Sample.{cbor, serde}
use arveil.Channel.{Noise, Transport, channel_new, channel_seal}
use arveil.Channel.RoundTrip.{NoiseLaws, open_all, open_all-channel_seal}

abbrev hello : Frame
hello = record { id = 7; payload = ping }

-- A writer for pings.
abbrev get_ping : Bytes → Result String Frame
get_ping (id ∷ rest) = ok (record { id = id; payload = ping })
get_ping _ = err "frame"

abbrev frames : Serde cbor Frame
frames = serde (λ f. f.id ∷ []) get_ping

-- A message carries 16 more bytes; the first is the count, which the other end compares with its
-- own.
abbrev tagged : ℕ → Bytes → Bytes
tagged k m = k ∷ 0 ∷ 0 ∷ 0 ∷ 0 ∷ 0 ∷ 0 ∷ 0 ∷ 0 ∷ 0 ∷ 0 ∷ 0 ∷ 0 ∷ 0 ∷ 0 ∷ 0 ∷ m

abbrev read_tagged : ℕ → Bytes → Result (Unit {0}) Bytes × ℕ
read_tagged k (x ∷ _ ∷ _ ∷ _ ∷ _ ∷ _ ∷ _ ∷ _ ∷ _ ∷ _ ∷ _ ∷ _ ∷ _ ∷ _ ∷ _ ∷ _ ∷ m) =
    if x == k then (ok m, k + 1) else (err tt, k)
read_tagged k _ = (err tt, k)

abbrev counted : Noise
counted = record {
  State = ℕ;
  SnowError = Unit {0};
  write_message = λ k m. (ok (tagged k m), k + 1);
  read_message = read_tagged;
}

read-tagged : (k : ℕ) (m : Bytes) → read_tagged k (tagged k m) ≡ (ok m, k + 1)
read-tagged k m = rw ((==_iff k k).1 refl) refl

counted_laws : NoiseLaws counted
counted_laws = record {
  Paired = λ a b. a ≡ b;
  carries = λ a b m same small. record {
    message = tagged a m;
    sender = a + 1;
    receiver = b + 1;
    wrote = refl;
    short = omega (arith, small);
    read = rw same (read-tagged b m);
    paired = rw same refl;
  };
}

abbrev session : Transport counted
session = record { state = 0; handshake_hash = [] }

open_all-channel_seal_example :
    (messages : List Bytes) × ((channel_seal counted frames hello (channel_new counted session)).0
      ≡ ok messages)
    × ((open_all counted counted_laws frames messages (channel_new counted session)).0
        ≡ ok (hello ∷ []))
unfolding encode decode canonical sort_maps counted_laws
open_all-channel_seal_example =
    open_all-channel_seal counted counted_laws frames hello (7 ∷ []) (channel_new counted session)
      session refl refl refl
