-- ===== src/Sql/Tables.antt =====
-- Tables with a primary key, as maps from the key to the first row that has it.
use arveil.Base.{
  ◌≡◌, ◌↔◌, refl, ap, sym, ◌∙◌, Bool, true, false, not, ◌&&◌, ◌||◌, List, [], ◌∷◌, ◌++◌, Option,
  none, some, Bytes, bytes_eq, bytes_eq_iff, any, arith, if◌then◌else◌, Bool-cases, inl, inr,
}
use arveil.Sql.{update_where, select, first_where, count_where, any-update_where, any-append}

-- The key of a row, and the comparison of keys.
pub record Keyed (K A : Type 0) : Type 0 where
  pub key : A → K
  pub same : K → K → Bool
  pub same_iff : (a b : K) → (same a b ≡ true) ↔ (a ≡ b)

-- A table whose key is one blob.
abbrev pub by_blob : {A : Type 0} → (A → Bytes) → Keyed Bytes A
by_blob key = record { key = key; same = bytes_eq; same_iff = bytes_eq_iff }

-- `DELETE … WHERE p`
abbrev pub delete_where {ℓ} : {A : Type ℓ} → (A → Bool) → List A → List A
delete_where p = select (λ r. not (p r))

-- `ORDER BY` a comparison, ties in the order of the rowids.
abbrev pub insert_by {ℓ} : {A : Type ℓ} → (A → A → Bool) → A → List A → List A
insert_by le r [] = r ∷ []
insert_by le r (q ∷ rows) =
    let rest = insert_by le r rows in if le r q then r ∷ q ∷ rows else q ∷ rest

abbrev pub order_by {ℓ} : {A : Type ℓ} → (A → A → Bool) → List A → List A
order_by le [] = []
order_by le (r ∷ rows) = insert_by le r (order_by le rows)

any-insert_by {ℓ} :
    {A : Type ℓ} (q : A → Bool) (le : A → A → Bool) (r : A) (rows : List A)
    → any q (insert_by le r rows) ≡ q r || any q rows
any-insert_by q le r [] = refl
any-insert_by q le r (x ∷ rows) = ground (arith, any-insert_by q le r rows)

pub any-order_by {ℓ} :
    {A : Type ℓ} (q : A → Bool) (le : A → A → Bool) (rows : List A)
    → any q (order_by le rows) ≡ any q rows
any-order_by q le [] = refl
any-order_by q le (r ∷ rows) =
    any-insert_by q le r (order_by le rows) ∙ ap (λ b. q r || b) (any-order_by q le rows)

abbrev pub map_option {ℓ κ} : {A : Type ℓ} {B : Type κ} → (A → B) → Option A → Option B
map_option f none = none
map_option f (some a) = some (f a)

abbrev pub is_some {ℓ} : {A : Type ℓ} → Option A → Bool
is_some none = false
is_some (some a) = true

-- What is left of a row under a condition.
abbrev pub kept_if {ℓ} : {A : Type ℓ} → (A → Bool) → Option A → Option A
kept_if p none = none
kept_if p (some r) = if p r then some r else none

module _ {K A : Type 0} (t : Keyed K A) where
  abbrev pub at : K → A → Bool
  at k r = t.same (t.key r) k

  abbrev pub row_at : K → List A → Option A
  row_at k s = first_where (at k) s

  -- No key stands twice.
  abbrev pub IsKeyed : List A → Type 0
  IsKeyed [] = Unit
  IsKeyed (r ∷ s) = (any (at (t.key r)) s ≡ false) × IsKeyed s

  pub any-at : (k : K) (s : List A) → any (at k) s ≡ is_some (row_at k s)
  any-at k [] = refl
  any-at k (r ∷ s) = ground (arith, any-at k s)

  any-at-same : (j k : K) (s : List A) → t.same j k ≡ true → any (at j) s ≡ any (at k) s
  any-at-same j k s e = ap (λ i. any (at i) s) ((t.same_iff j k).0 e)

  same_refl : (k : K) → t.same k k ≡ true
  same_refl k = (t.same_iff k k).1 refl

  none_at :
      (k : K) (c : A → Bool) (s : List A)
      → any (at k) s ≡ false
      → count_where (λ r. at k r && c r) s ≡ 0
  none_at k c [] h = refl
  none_at k c (r ∷ s) h = ground (arith, h, none_at k c s)

  -- The rows that an update by key changes are at most one.
  pub count_where-at :
      (k : K) (c : A → Bool) (s : List A)
      → IsKeyed s
      → count_where (λ r. at k r && c r) s ≡ (if is_some (kept_if c (row_at k s)) then 1 else 0)
  count_where-at k c [] h = refl
  count_where-at k c (r ∷ s) h = elim (Bool-cases (t.same (t.key r) k)) [
    | inl e ↦
        let gone = none_at k c s (sym (any-at-same (t.key r) k s e) ∙ h.0) in
        ground (arith, gone, e)
    | inr e ↦ ground (arith, count_where-at k c s h.1)
  ]

  -- A row that is found has the key.
  pub row_at-key : (k : K) (s : List A) (r : A) → row_at k s ≡ some r → t.key r ≡ k
  row_at-key k [] r h = ground arith
  row_at-key k (q ∷ s) r h = elim (Bool-cases (t.same (t.key q) k)) [
    | inl e ↦ ground (arith, h, e, (t.same_iff (t.key q) k).0 e)
    | inr e ↦ row_at-key k s r (ground (arith, h, e))
  ]

  -- A row keeps its key under the update.
  module _ (p : A → Bool) (f : A → A) (keeps : (r : A) → t.key (f r) ≡ t.key r) where
    pub row_at-update_where :
        (k : K) (s : List A)
        → row_at k (update_where p f s) ≡ map_option (λ r. if p r then f r else r) (row_at k s)
    row_at-update_where k [] = refl
    row_at-update_where k (r ∷ s) = ground (arith, row_at-update_where k s, keeps r)

    pub update_where-IsKeyed : (s : List A) → IsKeyed s → IsKeyed (update_where p f s)
    update_where-IsKeyed [] h = tt
    update_where-IsKeyed (r ∷ s) h =
        let fresh =
          λ (k : K). any-update_where (at k) p f s (λ q. ap (λ j. t.same j k) (keeps q)) in
        elim (Bool-cases (p r)) [
          | inl e ↦ rw e (rw (keeps r) (fresh (t.key r) ∙ h.0, update_where-IsKeyed s h.1))
          | inr e ↦ rw e (fresh (t.key r) ∙ h.0, update_where-IsKeyed s h.1)
        ]

  pub row_at-append :
      (k : K) (q : A) (s : List A)
      → any (at (t.key q)) s ≡ false
      → row_at k (s ++ q ∷ []) ≡ (if t.same (t.key q) k then some q else row_at k s)
  row_at-append k q [] fresh = refl
  row_at-append k q (r ∷ s) fresh = ground (
    arith,
    row_at-append k q s,
    fresh,
    t.same_iff (t.key q) k,
    t.same_iff (t.key r) k,
    t.same_iff (t.key r) (t.key q),
  )

  pub append-IsKeyed :
      (q : A) (s : List A) → any (at (t.key q)) s ≡ false → IsKeyed s → IsKeyed (s ++ q ∷ [])
  append-IsKeyed q [] fresh h = (refl, tt)
  append-IsKeyed q (r ∷ s) fresh h = (
    any-append (at (t.key r)) s (q ∷ [])
        ∙ ground
            (arith, h.0, fresh, t.same_iff (t.key q) (t.key r), t.same_iff (t.key r) (t.key q)),
    append-IsKeyed q s (ground (arith, fresh)) h.1,
  )

  any-select : (q p : A → Bool) (s : List A) → any q s ≡ false → any q (select p s) ≡ false
  any-select q p [] h = refl
  any-select q p (r ∷ s) h = ground (arith, h, any-select q p s)

  pub select-IsKeyed : (p : A → Bool) (s : List A) → IsKeyed s → IsKeyed (select p s)
  select-IsKeyed p [] h = tt
  select-IsKeyed p (r ∷ s) h = elim (Bool-cases (p r)) [
    | inl e ↦ rw e (any-select (at (t.key r)) p s h.0, select-IsKeyed p s h.1)
    | inr e ↦ rw e (select-IsKeyed p s h.1)
  ]

  pub absent : (k : K) (s : List A) → any (at k) s ≡ false → row_at k s ≡ none
  absent k [] h = refl
  absent k (r ∷ s) h = ground (arith, h, absent k s)

  pub row_at-select :
      (k : K) (p : A → Bool) (s : List A)
      → IsKeyed s
      → row_at k (select p s) ≡ kept_if p (row_at k s)
  row_at-select k p [] h = refl
  row_at-select k p (r ∷ s) h = elim (Bool-cases (t.same (t.key r) k)) [
    | inl e ↦
        let gone = absent k s (sym (any-at-same (t.key r) k s e) ∙ h.0) in
        ground (arith, e, row_at-select k p s h.1, gone)
    | inr e ↦ ground (arith, e, row_at-select k p s h.1)
  ]

  row_at-insert_by :
      (k : K) (le : A → A → Bool) (r : A) (s : List A)
      → any (at (t.key r)) s ≡ false
      → row_at k (insert_by le r s) ≡ (if t.same (t.key r) k then some r else row_at k s)
  row_at-insert_by k le r [] fresh = refl
  row_at-insert_by k le r (q ∷ s) fresh = ground (
    arith,
    row_at-insert_by k le r s,
    fresh,
    t.same_iff (t.key r) k,
    t.same_iff (t.key q) k,
    t.same_iff (t.key q) (t.key r),
  )

  -- Ordering does not change what a key finds.
  pub row_at-order_by :
      (k : K) (le : A → A → Bool) (s : List A) → IsKeyed s → row_at k (order_by le s) ≡ row_at k s
  row_at-order_by k le [] h = refl
  row_at-order_by k le (r ∷ s) h =
      row_at-insert_by k le r (order_by le s) (any-order_by (at (t.key r)) le s ∙ h.0)
      ∙ rw (row_at-order_by k le s h.1) refl
