-- ===== src/Fragment/Tests.antt =====
-- Runs of the fragmentation, and the theorems at concrete inputs.
use arveil.Base.{◌≡◌, refl, ◌∷◌, ◌++◌, [], Bytes, List, concat, map, ok, err, arith}
use arveil.Fragment.{
  Reassembler, new, fragments, flag_chunks, chunks_of, chunks, push_all, too_large,
}
use arveil.Fragment.RoundTrip.{push_all-fragments, push_all_oversized}

abbrev frames : List Bytes
frames = (1 ∷ 2 ∷ 3 ∷ []) ∷ [] ∷ (4 ∷ []) ∷ []

fragments_of_three : fragments (1 ∷ 2 ∷ 3 ∷ []) ≡ (1 ∷ 1 ∷ 2 ∷ 3 ∷ []) ∷ []
unfolding fragments chunks_of chunks flag_chunks
fragments_of_three = refl

-- An empty frame is one fragment.
fragments_of_none : fragments [] ≡ (1 ∷ []) ∷ []
unfolding fragments chunks_of chunks flag_chunks
fragments_of_none = refl

cut_in_two : flag_chunks 1 0 (chunks_of 2 (1 ∷ 2 ∷ 3 ∷ [])) ≡ (0 ∷ 1 ∷ 2 ∷ []) ∷ (1 ∷ 3 ∷ []) ∷ []
unfolding chunks_of chunks flag_chunks
cut_in_two = refl

push_all-fragments_example : push_all (new 3) (concat (map fragments frames)) ≡ (ok frames, new 3)
push_all-fragments_example = push_all-fragments 3 frames (omega arith)

push_all_oversized_example :
    push_all (new 2) (fragments (1 ∷ 2 ∷ 3 ∷ []) ++ (1 ∷ []) ∷ []) ≡ (err (too_large 2), new 2)
push_all_oversized_example = push_all_oversized 2 (1 ∷ 2 ∷ 3 ∷ []) ((1 ∷ []) ∷ []) (omega arith)

abbrev half_full : Reassembler
half_full = record { limit = 4; buffer = 1 ∷ 2 ∷ [] }
