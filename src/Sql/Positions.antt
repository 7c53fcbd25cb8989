-- ===== src/Sql/Positions.antt =====
-- Tables of one position for a key, written by an upsert that only moves a position forward.
use arveil.Base.{
  ℕ, ◌≡◌, refl, Bool, true, false, List, [], ◌∷◌, ◌++◌, Option, none, some, Bytes, bytes_eq,
  bytes_eq_iff, any, max, arith, if◌then◌else◌, Bool-cases, inl, inr,
}
use arveil.Sql.{update_where, first_where}

-- The rows of such a table.
pub record Positions (A : Type 0) : Type 0 where
  pub key : A → Bytes
  pub position : A → ℕ
  pub row : Bytes → ℕ → A
  pub raise : ℕ → A → A
  pub key_row : (m : Bytes) (c : ℕ) → key (row m c) ≡ m
  pub position_row : (m : Bytes) (c : ℕ) → position (row m c) ≡ c
  pub key_raise : (c : ℕ) (r : A) → key (raise c r) ≡ key r
  pub position_raise : (c : ℕ) (r : A) → position (raise c r) ≡ max (position r) c

module _ {A : Type 0} (p : Positions A) where
  abbrev pub has_row : Bytes → A → Bool
  has_row m r = bytes_eq (p.key r) m

  abbrev pub or_zero : Option A → ℕ
  or_zero none = 0
  or_zero (some r) = p.position r

  abbrev pub position_of : Bytes → List A → ℕ
  position_of m s = or_zero (first_where (has_row m) s)

  position_missing : (m : Bytes) (s : List A) → any (has_row m) s ≡ false → position_of m s ≡ 0
  position_missing m [] h = refl
  position_missing m (r ∷ s) h = ground (arith, position_missing m s)

  position_update_other :
      (m j : Bytes) (c : ℕ) (s : List A)
      → bytes_eq m j ≡ false
      → position_of j (update_where (has_row m) (p.raise c) s) ≡ position_of j s
  position_update_other m j c [] h = refl
  position_update_other m j c (r ∷ s) h = ground (
    arith,
    position_update_other m j c s h,
    p.key_raise c r,
    bytes_eq_iff (p.key r) m,
    bytes_eq_iff (p.key r) j,
    bytes_eq_iff m j,
  )

  position_update_self :
      (m : Bytes) (c : ℕ) (s : List A)
      → any (has_row m) s ≡ true
      → position_of m (update_where (has_row m) (p.raise c) s) ≡ max (position_of m s) c
  position_update_self m c [] h = cc
  position_update_self m c (r ∷ s) h =
      ground (arith, position_update_self m c s, p.key_raise c r, p.position_raise c r)

  pub position_update :
      (m j : Bytes) (c : ℕ) (s : List A)
      → any (has_row m) s ≡ true
      → position_of j (update_where (has_row m) (p.raise c) s)
        ≡ (if bytes_eq m j then max (position_of m s) c else position_of j s)
  position_update m j c s h = elim (Bool-cases (bytes_eq m j)) [
    | inl e ↦ rw e (rw (← (bytes_eq_iff m j).0 e) (position_update_self m c s h))
    | inr e ↦ rw e (position_update_other m j c s e)
  ]

  pub position_append :
      (m j : Bytes) (c : ℕ) (s : List A)
      → any (has_row m) s ≡ false
      → position_of j (s ++ p.row m c ∷ [])
        ≡ (if bytes_eq m j then max (position_of m s) c else position_of j s)
  position_append m j c [] h = ground (arith, p.key_row m c, p.position_row m c)
  position_append m j c (r ∷ s) h = ground (
    arith,
    position_append m j c s,
    bytes_eq_iff (p.key r) m,
    bytes_eq_iff (p.key r) j,
    bytes_eq_iff m j,
  )
