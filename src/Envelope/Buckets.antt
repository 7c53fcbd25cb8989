-- ===== src/Envelope/Buckets.antt =====
-- The bucket of core/crates/arveil-core/src/envelope.rs that a length is padded to.
use arveil.Base.{
  ℕ, ◌≤◌, ◌<◌, ◌≡◌, inl, inr, true, List, any, ◌==◌, ok, err, arith, Result-cases, All,
}
use arveil.Envelope.{too_large, buckets, find_bucket, bucket_for}

-- The bucket is the least that holds the length.
abbrev pub IsLeast : List ℕ → ℕ → ℕ → Type 0
IsLeast bs n b = (n ≤ b) × (any (λ c. c == b) bs ≡ true) × All (λ c. n ≤ c → b ≤ c) bs

module _ {E : Type 0} where
  pub bucket_fits : (n b : ℕ) → bucket_for {E = E} n ≡ ok b → IsLeast buckets n b
  unfolding bucket_for find_bucket
  bucket_fits n b h = ground arith

  pub bucket_max : (n b : ℕ) → bucket_for {E = E} n ≡ ok b → b ≤ 262144
  unfolding bucket_for find_bucket
  bucket_max n b h = ground arith

  bucket_found : (n : ℕ) → n ≤ 262144 → (b : ℕ) × (bucket_for {E = E} n ≡ ok b)
  unfolding bucket_for find_bucket
  bucket_found n h = elim (Result-cases (bucket_for {E = E} n)) [
    | inl (b, e) ↦ (b, e)
    | inr (x, e) ↦ absurd (ground (arith, e))
  ]

  -- The bucket of a length is the least of the buckets that hold it, and there is none exactly when
  -- the length is above 262144.
  pub bucket_for_lem :
      (n : ℕ)
      → ((b : ℕ) → bucket_for {E = E} n ≡ ok b → IsLeast buckets n b)
        × (n ≤ 262144 → (b : ℕ) × (bucket_for {E = E} n ≡ ok b))
        × (262144 < n → bucket_for {E = E} n ≡ err (too_large n))
  unfolding bucket_for find_bucket
  bucket_for_lem n = (bucket_fits n, bucket_found n, λ h. ground arith)
