-- ===== src/Fragment/RoundTrip.antt =====
-- `Reassembler::push` of core/crates/arveil-core/src/channel/fragment.rs: what it puts together,
-- what it refuses, and how much it holds.
use mathlib.Core.List.{append_assoc, append-nil}
use arveil.Base.{
  ℕ, ◌+◌, ◌≤◌, ◌<◌, ◌≡◌, ◌⊎◌, inl, inr, refl, ap, ◌∙◌, List, [], ◌∷◌, ◌++◌, none, some, Bytes,
  length, concat, map, All, length-append, arith, Result, ok, err, map_ok,
}
use arveil.Fragment.{
  Reassembler, FragmentError, fragments, push, push_flagged, push_all, new, flag_last, too_large,
}
use arveil.Fragment.Pieces.{flagged, fragments-Pieces}

-- How much a reassembler may hold.
abbrev pub IsBounded : Reassembler → Type 0
IsBounded r = length r.buffer ≤ r.limit

-- No fragment, of whatever flags and size, makes the buffer pass its limit.
pub push-IsBounded :
    (r : Reassembler) (f : Bytes)
    → IsBounded r
    → IsBounded (push r f).1 × ((push r f).1.limit ≡ r.limit)
unfolding push push_flagged
push-IsBounded r [] h = (h, refl)
push-IsBounded r (flags ∷ rest) h = ground (arith, length-append r.buffer rest)

module _ (r : Reassembler) (more : List Bytes) where
  -- What a frame's fragments leave for the ones behind them.
  abbrev pub then_more : Bytes → Result FragmentError (List Bytes) × Reassembler
  then_more frame = (
    map_ok (◌∷◌ frame) (push_all (record r { buffer = [] }) more).0,
    (push_all (record r { buffer = [] }) more).1,
  )

module _ (r : Reassembler) (c : Bytes) (fits : length r.buffer + length c ≤ r.limit) where
  push_last : push r (flag_last ∷ c) ≡ (ok (some (r.buffer ++ c)), record r { buffer = [] })
  unfolding push push_flagged
  push_last = ground arith

  push_part : push r (0 ∷ c) ≡ (ok none, record r { buffer = r.buffer ++ c })
  unfolding push push_flagged
  push_part = ground arith

push_too_large :
    (r : Reassembler) (flags : ℕ) (c : Bytes)
    → r.limit < length r.buffer + length c
    → (flags ≡ 0) ⊎ (flags ≡ flag_last)
    → push r (flags ∷ c) ≡ (err (too_large r.limit), record r { buffer = [] })
unfolding push push_flagged
push_too_large r flags c h (inl e) = rw e (ground arith)
push_too_large r flags c h (inr e) = rw e (ground arith)

le_or_lt : (a b : ℕ) → (a ≤ b) ⊎ (b < a)
le_or_lt a b = grind arith

module _ (r r' : Reassembler) (f : Bytes) (fs : List Bytes) where
  after_frame :
      (frame : Bytes)
      → push r f ≡ (ok (some frame), r')
      → push_all r (f ∷ fs) ≡ (map_ok (◌∷◌ frame) (push_all r' fs).0, (push_all r' fs).1)
  unfolding push_all
  after_frame frame h = rw (h, push_all) (rw h)

  after_part : push r f ≡ (ok none, r') → push_all r (f ∷ fs) ≡ push_all r' fs
  unfolding push_all
  after_part h = rw (h, push_all) (rw h)

  push_all_err : (e : FragmentError) → push r f ≡ (err e, r') → push_all r (f ∷ fs) ≡ (err e, r')
  unfolding push_all
  push_all_err e h = rw (h, push_all) (rw h)

push_all-flagged :
    (r : Reassembler) (c : Bytes) (cs more : List Bytes)
    → length r.buffer + length (c ++ concat cs) ≤ r.limit
    → push_all r (flagged c cs ++ more) ≡ then_more r more (r.buffer ++ (c ++ concat cs))
push_all-flagged r c [] more h =
    rw append-nil
      (after_frame r _ _ more (r.buffer ++ c) (push_last r c (omega (arith, length-append c []))))
push_all-flagged r c (d ∷ ds) more h =
    let split = length-append c (d ++ concat ds) in
    let after = record r { buffer = r.buffer ++ c } in
    after_part r after _ (flagged d ds ++ more) (push_part r c (omega arith))
    ∙ push_all-flagged after d ds more (omega (arith, length-append r.buffer c))
    ∙ ap (then_more r more) (append_assoc r.buffer c (d ++ concat ds))

-- The reassembler gives back the frames whose fragments it is sent back to back, in order, whatever
-- their bytes, if it starts empty and no frame is longer than its limit; it is empty again behind
-- them.
pub push_all-fragments :
    (limit : ℕ) (frames : List Bytes)
    → All (λ f. length f ≤ limit) frames
    → push_all (new limit) (concat (map fragments frames)) ≡ (ok frames, new limit)
unfolding new
push_all-fragments limit [] h = unfold push_all in refl
push_all-fragments limit (f ∷ fs) h =
    let cut = fragments-Pieces f in
    let fits : length (cut.0 ++ concat cut.1) ≤ limit = rw (cut.3) h.0 in
    rw (cut.2) (
      push_all-flagged (record { limit = limit; buffer = [] }) cut.0 cut.1
        (concat (map fragments fs)) (omega arith)
      ∙ rw (cut.3) (rw (push_all-fragments limit fs h.1)))

push_all_too_large :
    (r : Reassembler) (c : Bytes) (cs more : List Bytes)
    → IsBounded r
    → r.limit < length r.buffer + length (c ++ concat cs)
    → push_all r (flagged c cs ++ more) ≡ (err (too_large r.limit), record r { buffer = [] })
push_all_too_large r c [] more b h =
    push_all_err r _ _ more _
      (push_too_large r flag_last c (omega (arith, length-append c [])) (inr refl))
push_all_too_large r c (d ∷ ds) more b h = elim (le_or_lt (length r.buffer + length c) r.limit) [
  | inl fits ↦
      let after = record r { buffer = r.buffer ++ c } in
      after_part r after _ (flagged d ds ++ more) (push_part r c fits)
      ∙ push_all_too_large after d ds more (omega (arith, length-append r.buffer c))
          (omega (arith, length-append r.buffer c, length-append c (d ++ concat ds)))
  | inr over ↦ push_all_err r _ _ _ _ (push_too_large r 0 c over (inl refl))
]

-- A frame longer than the limit is refused, and what was held of it is dropped.
pub push_all_oversized :
    (limit : ℕ) (frame : Bytes) (more : List Bytes)
    → limit < length frame
    → push_all (new limit) (fragments frame ++ more) ≡ (err (too_large limit), new limit)
unfolding new
push_all_oversized limit frame more h =
    let cut = fragments-Pieces frame in
    rw (cut.2) (
      push_all_too_large (record { limit = limit; buffer = [] }) cut.0 cut.1 more (omega arith)
        (let longer : limit < length (cut.0 ++ concat cut.1) = rw (cut.3) h in omega arith))
