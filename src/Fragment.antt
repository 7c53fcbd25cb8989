-- ===== src/Fragment.antt =====
-- core/crates/arveil-core/src/channel/fragment.rs: frames cut into Noise payloads, and put
-- together again in one bounded buffer.
pub mod Pieces
pub mod RoundTrip
mod Tests
use arveil.Base.{
  ℕ, zero, suc, ◌+◌, ◌-◌, Bool, true, false, not, List, [], ◌∷◌, ◌++◌, Option, none, some, Bytes,
  length, take, drop, ltb, ◌==◌, bit_and, if◌then◌else◌, Result, ok, err, map_ok,
}

-- noise.rs
abbrev pub max_noise_message : ℕ
max_noise_message = 65535

abbrev pub max_noise_payload : ℕ
max_noise_payload = max_noise_message - 16

abbrev pub flag_last : ℕ
flag_last = 0b0000_0001

abbrev pub fragment_data : ℕ
fragment_data = max_noise_payload - 1

pub data FragmentError : Type 0 where
  empty : FragmentError
  unknown_flags : ℕ → FragmentError
  too_large : ℕ → FragmentError

-- `slice::chunks`, with as much fuel as the slice has bytes.
unfoldable pub chunks : ℕ → ℕ → Bytes → List Bytes
chunks fuel size [] = []
chunks zero size (x ∷ xs) = []
chunks (suc fuel) size (x ∷ xs) = take size (x ∷ xs) ∷ chunks fuel size (drop size (x ∷ xs))

-- `enumerate` and the flag of each chunk, from index `i` on.
unfoldable pub flag_chunks : ℕ → ℕ → List Bytes → List Bytes
flag_chunks last i [] = []
flag_chunks last i (chunk ∷ rest) =
    ((if i == last then flag_last else 0) ∷ chunk) ∷ flag_chunks last (i + 1) rest

unfoldable pub chunks_of : ℕ → Bytes → List Bytes
chunks_of size [] = [] ∷ []
chunks_of size (x ∷ xs) = chunks (length (x ∷ xs)) size (x ∷ xs)

unfoldable pub fragments : Bytes → List Bytes
fragments bytes = let cut = chunks_of fragment_data bytes in flag_chunks (length cut - 1) 0 cut

pub record Reassembler : Type 0 where
  pub limit : ℕ
  pub buffer : Bytes

unfoldable pub new : ℕ → Reassembler
new limit = record { limit = limit; buffer = [] }

-- `push` once the flags are split off; `!FLAG_LAST` of a byte is 0xfe.
unfoldable pub push_flagged :
    Reassembler → ℕ → Bytes → Result FragmentError (Option Bytes) × Reassembler
push_flagged r flags rest =
    if not (bit_and flags 0xfe == 0)
    then (err (unknown_flags flags), r)
    else if ltb r.limit (length r.buffer + length rest)
    then (err (too_large r.limit), record r { buffer = [] })
    else if not (bit_and flags flag_last == 0)
    then (ok (some (r.buffer ++ rest)), record r { buffer = [] })
    else (ok none, record r { buffer = r.buffer ++ rest })

unfoldable pub push : Reassembler → Bytes → Result FragmentError (Option Bytes) × Reassembler
push r [] = (err empty, r)
push r (flags ∷ rest) = push_flagged r flags rest

unfoldable pub is_mid_frame : Reassembler → Bool
is_mid_frame r = elim r.buffer [ [] ↦ false | x ∷ xs ↦ true ]

-- A run of `push` over the fragments that arrive, which ends at the first error: the frames that
-- were completed.
unfoldable pub push_all : Reassembler → List Bytes → Result FragmentError (List Bytes) × Reassembler
push_all r [] = (ok [], r)
push_all r (f ∷ fs) =
    let (result, r') = push r f in
    let (rest, r'') = push_all r' fs in
    elim result [
      | err e ↦ (err e, r')
      | ok none ↦ (rest, r'')
      | ok (some frame) ↦ (map_ok (◌∷◌ frame) rest, r'')
    ]
