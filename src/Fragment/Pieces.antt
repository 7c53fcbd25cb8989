-- ===== src/Fragment/Pieces.antt =====
-- What `fragments` of core/crates/arveil-core/src/channel/fragment.rs cuts: pieces that join to
-- the bytes, each of which fits into one Noise payload.
use arveil.Base.{
  ℕ, zero, suc, ◌+◌, ◌≤◌, ◌<◌, ◌≡◌, refl, ap, ◌∙◌, List, [], ◌∷◌, ◌++◌, Bytes, length, take, drop,
  concat, All, take-append-drop, length-take, length-drop, arith,
}
use arveil.Fragment.{
  chunks, chunks_of, flag_chunks, fragments, flag_last, fragment_data, max_noise_payload,
}

-- Fragments with the last flag on the last piece alone.
abbrev pub flagged : Bytes → List Bytes → List Bytes
flagged c [] = (flag_last ∷ c) ∷ []
flagged c (d ∷ ds) = (0 ∷ c) ∷ flagged d ds

-- The pieces as a first one and the others.
pub record Pieces (size : ℕ) (bytes : Bytes) (cut : List Bytes) : Type 0 where
  pub first : Bytes
  pub others : List Bytes
  pub cut_is : cut ≡ first ∷ others
  pub joined : first ++ concat others ≡ bytes
  pub small : All (λ c. length c ≤ size) (first ∷ others)

chunks-concat :
    (fuel size : ℕ) (bytes : Bytes)
    → length bytes ≤ fuel
    → 0 < size
    → concat (chunks fuel size bytes) ≡ bytes
unfolding chunks
chunks-concat fuel size [] h s = refl
chunks-concat zero size (x ∷ xs) h s = absurd (omega arith)
chunks-concat (suc fuel) (suc size) (x ∷ xs) h s =
    let rest =
      chunks-concat fuel (suc size) (drop size xs) (omega (arith, length-drop size xs)) s in
    ap (◌∷◌ x) (ap (λ t. take size xs ++ t) rest ∙ take-append-drop size xs)
chunks-concat (suc fuel) zero (x ∷ xs) h s = absurd (omega arith)

chunks-small : (fuel size : ℕ) (bytes : Bytes) → All (λ c. length c ≤ size) (chunks fuel size bytes)
unfolding chunks
chunks-small fuel size [] = tt
chunks-small zero size (x ∷ xs) = tt
chunks-small (suc fuel) size (x ∷ xs) =
    (omega (arith, length-take size (x ∷ xs)), chunks-small fuel size (drop size (x ∷ xs)))

flag_chunks-flagged :
    (i last : ℕ) (c : Bytes) (cs : List Bytes)
    → last ≡ i + length cs
    → flag_chunks last i (c ∷ cs) ≡ flagged c cs
unfolding flag_chunks
flag_chunks-flagged i last c [] e = ground arith
flag_chunks-flagged i last c (d ∷ ds) e = ground (arith, flag_chunks-flagged (i + 1) last d ds)

chunks_of-Pieces : (size : ℕ) (bytes : Bytes) → 0 < size → Pieces size bytes (chunks_of size bytes)
unfolding chunks_of chunks
chunks_of-Pieces size [] h = record {
  first = [];
  others = [];
  cut_is = refl;
  joined = refl;
  small = (omega arith, tt);
}
chunks_of-Pieces size (x ∷ xs) h = record {
  first = take size (x ∷ xs);
  others = chunks (length xs) size (drop size (x ∷ xs));
  cut_is = refl;
  joined = chunks-concat (suc (length xs)) size (x ∷ xs) (omega arith) h;
  small = chunks-small (suc (length xs)) size (x ∷ xs);
}

-- `fragments` is the pieces with their flags.
pub fragments-Pieces :
    (bytes : Bytes)
    → (c : Bytes) × (cs : List Bytes) × (fragments bytes ≡ flagged c cs)
      × (c ++ concat cs ≡ bytes)
      × All (λ d. length d ≤ fragment_data) (c ∷ cs)
unfolding fragments
fragments-Pieces bytes =
    let cut = chunks_of-Pieces fragment_data bytes (omega arith) in
    (
      cut.first,
      cut.others,
      rw (cut.cut_is) (flag_chunks-flagged 0 _ cut.first cut.others (omega arith)),
      cut.joined,
      cut.small,
    )

flagged-length :
    (size : ℕ) (c : Bytes) (cs : List Bytes)
    → All (λ d. length d ≤ size) (c ∷ cs)
    → All (λ f. (0 < length f) × (length f ≤ size + 1)) (flagged c cs)
flagged-length size c [] h = ((omega arith, omega arith), tt)
flagged-length size c (d ∷ ds) h = ((omega arith, omega arith), flagged-length size d ds h.1)

-- Every fragment has its flag byte and fits into one Noise payload.
pub length-fragments :
    (bytes : Bytes) → All (λ f. (0 < length f) × (length f ≤ max_noise_payload)) (fragments bytes)
length-fragments bytes =
    let cut = fragments-Pieces bytes in rw (cut.2) (flagged-length fragment_data cut.0 cut.1 cut.4)
