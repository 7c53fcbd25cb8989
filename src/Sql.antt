-- ===== src/Sql.antt =====
-- The SQL statements of the client's stores, over tables as lists in the order of their rowids.
-- SQLite itself stands outside: a table is the rows that its statements have left in it.
pub mod Positions
pub mod Tables
use arveil.Base.{
  ℕ, ◌+◌, ◌≤◌, ◌≡◌, refl, ap, ap₂, ◌∙◌, map, Bool, ◌||◌, List, [], ◌∷◌, ◌++◌, Option, none, some,
  Bool-cases, inl, inr, arith, if◌then◌else◌, length, max, any, All,
}

-- `rusqlite::Error`, as far as the stores raise it.
pub data SqlError : Type 0 where
  constraint invalid_query no_rows : SqlError

-- `COALESCE(a, b)` on columns that may be NULL.
abbrev pub coalesce {ℓ} : {A : Type ℓ} → Option A → Option A → Option A
coalesce none b = b
coalesce (some a) b = some a

module _ {ℓ} {A : Type ℓ} where
  -- `UPDATE … SET … WHERE p`
  abbrev pub update_where : (A → Bool) → (A → A) → List A → List A
  update_where p f [] = []
  update_where p f (x ∷ xs) = (if p x then f x else x) ∷ update_where p f xs

  -- `SELECT … WHERE p`
  abbrev pub select : (A → Bool) → List A → List A
  select p [] = []
  select p (x ∷ xs) = if p x then x ∷ select p xs else select p xs

  -- `SELECT COUNT(*) … WHERE p`
  abbrev pub count_where : (A → Bool) → List A → ℕ
  count_where p [] = 0
  count_where p (x ∷ xs) = (if p x then 1 else 0) + count_where p xs

  -- `query_row(… WHERE p).optional()`
  abbrev pub first_where : (A → Bool) → List A → Option A
  first_where p [] = none
  first_where p (x ∷ xs) = if p x then some x else first_where p xs

  -- `SELECT MAX(…)`: zero for no row.
  abbrev pub max_of : (A → ℕ) → List A → ℕ
  max_of f [] = 0
  max_of f (x ∷ xs) = max (f x) (max_of f xs)

module _ {ℓ} {A : Type ℓ} where
  pub All-update_where {κ} :
      (P : A → Type κ) (p : A → Bool) (f : A → A) (xs : List A)
      → ((x : A) → P x → P (f x))
      → All P xs
      → All P (update_where p f xs)
  All-update_where P p f [] h a = a
  All-update_where P p f (x ∷ xs) h a = elim (Bool-cases (p x)) [
    | inl e ↦ (rw e (h x a.0), All-update_where P p f xs h a.1)
    | inr e ↦ (rw e a.0, All-update_where P p f xs h a.1)
  ]

  -- A column that the update keeps.
  pub map-update_where {κ} :
      {B : Type κ} (g : A → B) (p : A → Bool) (f : A → A) (xs : List A)
      → ((x : A) → g (f x) ≡ g x)
      → map g (update_where p f xs) ≡ map g xs
  map-update_where g p f [] h = refl
  map-update_where g p f (x ∷ xs) h = elim (Bool-cases (p x)) [
    | inl e ↦ rw e (ap₂ ◌∷◌ (h x) (map-update_where g p f xs h))
    | inr e ↦ rw e (ap (◌∷◌ (g x)) (map-update_where g p f xs h))
  ]

  -- Writing the same again changes nothing.
  pub update_where_idem :
      (p : A → Bool) (f : A → A) (xs : List A)
      → ((x : A) → p (f x) ≡ p x)
      → ((x : A) → f (f x) ≡ f x)
      → update_where p f (update_where p f xs) ≡ update_where p f xs
  update_where_idem p f [] hp hf = refl
  update_where_idem p f (x ∷ xs) hp hf = elim (Bool-cases (p x)) [
    | inl e ↦ rw e (rw (hp x ∙ e) (ap₂ ◌∷◌ (hf x) (update_where_idem p f xs hp hf)))
    | inr e ↦ rw e (rw e (ap (◌∷◌ x) (update_where_idem p f xs hp hf)))
  ]

  pub any-update_where :
      (q p : A → Bool) (f : A → A) (xs : List A)
      → ((x : A) → q (f x) ≡ q x)
      → any q (update_where p f xs) ≡ any q xs
  any-update_where q p f [] h = refl
  any-update_where q p f (x ∷ xs) h = ground (arith, h x, any-update_where q p f xs h)

  pub any-append : (q : A → Bool) (xs ys : List A) → any q (xs ++ ys) ≡ any q xs || any q ys
  any-append q [] ys = refl
  any-append q (x ∷ xs) ys = ground (arith, any-append q xs ys)

  pub select-append :
      (p : A → Bool) (xs ys : List A) → select p (xs ++ ys) ≡ select p xs ++ select p ys
  select-append p [] ys = refl
  select-append p (x ∷ xs) ys = ground (arith, select-append p xs ys)

  pub count_where-append :
      (p : A → Bool) (xs ys : List A)
      → count_where p (xs ++ ys) ≡ count_where p xs + count_where p ys
  count_where-append p [] ys = omega arith
  count_where-append p (x ∷ xs) ys = omega (arith, count_where-append p xs ys)

  pub length-select : (p : A → Bool) (xs : List A) → length (select p xs) ≡ count_where p xs
  length-select p [] = refl
  length-select p (x ∷ xs) = ground (arith, length-select p xs)

  pub All-append {κ} : (P : A → Type κ) (xs ys : List A) → All P xs → All P ys → All P (xs ++ ys)
  All-append P [] ys a b = b
  All-append P (x ∷ xs) ys a b = (a.0, All-append P xs ys a.1 b)

  -- Every row is at most the maximum.
  pub All-max_of : (f : A → ℕ) (xs : List A) (m : ℕ) → max_of f xs ≤ m → All (λ x. f x ≤ m) xs
  All-max_of f [] m h = tt
  All-max_of f (x ∷ xs) m h = (omega arith, All-max_of f xs m (omega arith))
