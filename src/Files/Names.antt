-- ===== src/Files/Names.antt =====
-- The file names that core/crates/arveil-core/src/attachments.rs gives out.
use arveil.Base.{
  ℕ, zero, suc, ◌≡◌, refl, ap, ◌∙◌, Bool, false, not, List, [], ◌∷◌, ascii, any, length,
  length-take, take, is_empty, ltb, ◌==◌, Bool-cases, inl, inr, arith,
}
use arveil.Sql.{select}
use arveil.Files.{is_separator, last_part, trim_dots, is_control, safe_base, safe_name}

last_part-separators : (s : List ℕ) → any is_separator (last_part s) ≡ false
unfolding last_part
last_part-separators [] = refl
last_part-separators (x ∷ s) = ground (arith, last_part-separators s)

last_part-any : (q : ℕ → Bool) (s : List ℕ) → any q s ≡ false → any q (last_part s) ≡ false
unfolding last_part
last_part-any q [] h = refl
last_part-any q (x ∷ s) h = ground (arith, h, last_part-any q s)

trim_dots-any : (q : ℕ → Bool) (s : List ℕ) → any q s ≡ false → any q (trim_dots s) ≡ false
unfolding trim_dots
trim_dots-any q [] h = refl
trim_dots-any q (x ∷ s) h = ground (arith, h, trim_dots-any q s)

select-any : (q p : ℕ → Bool) (s : List ℕ) → any q s ≡ false → any q (select p s) ≡ false
select-any q p [] h = refl
select-any q p (x ∷ s) h = ground (arith, h, select-any q p s)

select-none : (q : ℕ → Bool) (s : List ℕ) → any q (select (λ x. not (q x)) s) ≡ false
select-none q [] = refl
select-none q (x ∷ s) = ground (arith, select-none q s)

select-all : (q : ℕ → Bool) (s : List ℕ) → any q s ≡ false → select (λ x. not (q x)) s ≡ s
select-all q [] h = refl
select-all q (x ∷ s) h = elim (Bool-cases (q x)) [
  | inl e ↦ ground (arith, e, h)
  | inr e ↦ rw e (ap (◌∷◌ x) (select-all q s (ground (arith, e, h))))
]

take-any : (n : ℕ) (q : ℕ → Bool) (s : List ℕ) → any q s ≡ false → any q (take n s) ≡ false
take-any zero q s h = refl
take-any (suc n) q [] h = refl
take-any (suc n) q (x ∷ s) h = ground (arith, h, take-any n q s)

take-length : (n : ℕ) (s : List ℕ) → ltb n (length (take n s)) ≡ false
take-length n s = ground (arith, length-take n s)

abbrev pub starts_with_dot : List ℕ → Bool
starts_with_dot [] = false
starts_with_dot (x ∷ s) = x == 46

trim_dots-starts_with_dot : (s : List ℕ) → starts_with_dot (trim_dots s) ≡ false
unfolding trim_dots
trim_dots-starts_with_dot [] = refl
trim_dots-starts_with_dot (x ∷ s) = ground (arith, trim_dots-starts_with_dot s)

take-starts_with_dot :
    (n : ℕ) (s : List ℕ) → starts_with_dot s ≡ false → starts_with_dot (take n s) ≡ false
take-starts_with_dot zero s h = refl
take-starts_with_dot (suc n) [] h = refl
take-starts_with_dot (suc n) (x ∷ s) h = h

-- A base name stands for itself unless it is empty.
either_name :
    (P : List ℕ → Bool) (name : List ℕ)
    → P (safe_base name) ≡ false
    → P (ascii "file") ≡ false
    → P (safe_name name) ≡ false
unfolding safe_name
either_name P name b f = elim (Bool-cases (is_empty (safe_base name))) [
  | inl e ↦ rw e f
  | inr e ↦ rw e b
]

base-any :
    (q : ℕ → Bool) (name : List ℕ) → any q (last_part name) ≡ false → any q (safe_base name) ≡ false
unfolding safe_base
base-any q name h =
    take-any 120 q _ (select-any q (λ x. not (is_control x)) _ (trim_dots-any q (last_part name) h))

base-controls : (name : List ℕ) → any is_control (safe_base name) ≡ false
unfolding safe_base
base-controls name =
    let plain = trim_dots (last_part name) in
    take-any 120 is_control (select (λ x. not (is_control x)) plain) (select-none is_control plain)

base-length : (name : List ℕ) → ltb 120 (length (safe_base name)) ≡ false
unfolding safe_base
base-length name = take-length 120 (select (λ x. not (is_control x)) (trim_dots (last_part name)))

base-starts_with_dot :
    (name : List ℕ) → any is_control name ≡ false → starts_with_dot (safe_base name) ≡ false
unfolding safe_base
base-starts_with_dot name h =
    let clean = trim_dots-any is_control (last_part name) (last_part-any is_control name h) in
    take-starts_with_dot 120 (select (λ x. not (is_control x)) (trim_dots (last_part name))) (
      ap starts_with_dot (select-all is_control (trim_dots (last_part name)) clean)
      ∙ trim_dots-starts_with_dot (last_part name))

-- A file name that is given out is not empty, has at most 120 characters, and holds no path separator
-- and no control character; where the name that arrived holds no control character, it does not
-- start with a dot.
pub safe_name_lem :
    (name : List ℕ)
    → (is_empty (safe_name name) ≡ false)
      × (ltb 120 (length (safe_name name)) ≡ false)
      × (any is_separator (safe_name name) ≡ false)
      × (any is_control (safe_name name) ≡ false)
      × (any is_control name ≡ false → starts_with_dot (safe_name name) ≡ false)
unfolding safe_name
safe_name_lem name = (
  elim (Bool-cases (is_empty (safe_base name))) [ inl e ↦ rw e refl | inr e ↦ rw e e ],
  either_name (λ s. ltb 120 (length s)) name (base-length name) refl,
  either_name (any is_separator) name (base-any is_separator name (last_part-separators name)) refl,
  either_name (any is_control) name (base-controls name) refl,
  λ h. either_name starts_with_dot name (base-starts_with_dot name h) refl,
)
