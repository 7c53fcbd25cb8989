-- ===== src/Packages/Batches.antt =====
-- The batches of key packages of core/crates/arveil-core/src/client.rs.
use arveil.Base.{
  ℕ, zero, suc, ◌+◌, ◌-◌, ◌≤◌, ◌<◌, ◌≡◌, refl, ap, sym, ◌∙◌, String, List, ◌∷◌, Option, none, some,
  Bytes, bytes_eq_refl, length, ltb, Bool-cases, Option-cases, Result, Result-cases, inl, inr,
  arith, ok, err,
}
use arveil.Sql.Tables.{is_some, row_at, any-at, row_at-append}
use arveil.Client.{ClientError}
use arveil.Packages.{
  key_package_floor, key_package_target, MlsEngine, MlsEngineLaws, PendingKeyPackages,
  ReplenishmentRow, by_device, PackageState, pending_of, pending_key_packages, push_package, made,
  make_packages, with_batch, store_batch, prepared, read_pending, prepare_key_package_replenishment,
}

module _ (e : MlsEngine) where
  -- A result that, if there is one, has `n` packages.
  abbrev HasLength : ℕ → Result ClientError (List Bytes) × e.Keys → Type 0
  HasLength n r = (packages : List Bytes) → r.0 ≡ ok packages → length packages ≡ n

  push-HasLength :
      (n : ℕ) (p : Bytes) (r : Result ClientError (List Bytes) × e.Keys)
      → HasLength n r
      → HasLength (suc n) (push_package e p r)
  push-HasLength n p (err x, keys) h packages g = ground (arith, g)
  push-HasLength n p (ok rest, keys) h packages g =
      let len : length rest ≡ n = h rest refl in
      let same : p ∷ rest ≡ packages = ground (arith, g) in
      ap length (sym same) ∙ omega (arith, len)

  made-HasLength :
      (n : ℕ) (r : Result String Bytes × e.Keys)
      (more : e.Keys → Result ClientError (List Bytes) × e.Keys)
      → ((keys : e.Keys) → HasLength n (more keys))
      → HasLength (suc n) (made e r more)
  made-HasLength n (err text, keys) more h packages g = ground (arith, g)
  made-HasLength n (ok p, keys) more h packages g =
      push-HasLength n p (more keys) (h keys) packages g

  make-HasLength : (n : ℕ) (keys : e.Keys) → HasLength n (make_packages e n keys)
  unfolding make_packages
  make-HasLength zero keys packages g = ground (arith, g)
  make-HasLength (suc n) keys packages g =
      made-HasLength n (e.key_package keys) (make_packages e n) (make-HasLength n) packages g

  -- No row is pending where nothing is pending.
  no_row :
      (device : Bytes) (s : PackageState e)
      → pending_key_packages e device s ≡ ok none
      → row_at by_device device s.replenishment ≡ none
  unfolding pending_key_packages pending_of
  no_row device s h = elim (Option-cases (row_at by_device device s.replenishment)) [
    | inl n ↦ n
    | inr (r, n) ↦
        let read : read_pending e r.previous (e.read_batch r.batch) ≡ ok none =
          ap (pending_of e) (sym n) ∙ h in
        elim (Result-cases (e.read_batch r.batch)) [
          | inl (packages, b) ↦ absurd (ground (arith, read, b))
          | inr (text, b) ↦ absurd (ground (arith, read, b))
        ]
  ]

  module _ (laws : MlsEngineLaws e) (device : Bytes) (available : ℕ) (s : PackageState e) where
    -- The state that a stored batch leaves gives that batch back.
    stored-pending :
        (packages : List Bytes) (bytes : Bytes) (keys : e.Keys)
        → pending_key_packages e device s ≡ ok none
        → e.write_batch packages ≡ ok bytes
        → pending_key_packages e device (with_batch e device available packages keys (ok bytes) s).1
          ≡ ok (some (record { packages = packages; previous = available }))
    unfolding pending_key_packages pending_of
    stored-pending packages bytes keys h w =
        let row : ReplenishmentRow = record {
          device_id = device;
          batch = bytes;
          previous = available;
        } in
        let fresh = any-at by_device device s.replenishment ∙ ap is_some (no_row device s h) in
        ap (pending_of e) (row_at-append by_device device row s.replenishment fresh)
        ∙ rw (bytes_eq_refl device) (rw (laws.reads_batch packages bytes w) refl)

    -- A batch that was stored is pending afterwards, has the packages of the loop, and an error leaves
    -- the state.
    abbrev Stored : ℕ → Result ClientError (Option PendingKeyPackages) × PackageState e → Type 0
    Stored n t =
        ((p : PendingKeyPackages)
          → t.0 ≡ ok (some p)
          → (pending_key_packages e device t.1 ≡ ok (some p))
            × (length p.packages ≡ n)
            × (p.previous ≡ available))
        × ((x : ClientError) → t.0 ≡ err x → t.1 ≡ s)

    with_batch-Stored :
        (n : ℕ) (packages : List Bytes) (keys : e.Keys) (r : Result String Bytes)
        → pending_key_packages e device s ≡ ok none
        → e.write_batch packages ≡ r
        → length packages ≡ n
        → Stored n (with_batch e device available packages keys r s)
    with_batch-Stored n packages keys (err text) h w l = (λ p g. ground (arith, g), λ x g. refl)
    with_batch-Stored n packages keys (ok bytes) h w l = (
      λ p g.
          let same : record { packages = packages; previous = available } ≡ p = ground (arith, g) in
          (
            stored-pending packages bytes keys h w ∙ ap (λ q. ok (some q)) same,
            ap (λ q. length q.packages) (sym same) ∙ l,
            ap (λ q. q.previous) (sym same),
          ),
      λ x g. ground (arith, g),
    )

    store_batch-Stored :
        (n : ℕ) (r : Result ClientError (List Bytes) × e.Keys)
        → pending_key_packages e device s ≡ ok none
        → HasLength n r
        → Stored n (store_batch e device available r s)
    unfolding store_batch
    store_batch-Stored n (err x, keys) h l = (λ p g. ground (arith, g), λ x g. refl)
    store_batch-Stored n (ok packages, keys) h l =
        with_batch-Stored n packages keys (e.write_batch packages) h refl (l packages refl)

    -- A device that has no batch pending prepares one only at the floor or below, and then as many
    -- packages as are missing to the target; the batch is pending from then on, so that every later
    -- call, with whatever count, answers with the same batch and changes nothing; a failure leaves the
    -- state, the private keys included, as it was.
    pub prepare_lem :
        (later : ℕ)
        → pending_key_packages e device s ≡ ok none
        → (key_package_floor < available
            → prepare_key_package_replenishment e device available s ≡ (ok none, s))
          × ((p : PendingKeyPackages)
              → (prepare_key_package_replenishment e device available s).0 ≡ ok (some p)
              → (length p.packages + available ≡ key_package_target)
                × (p.previous ≡ available)
                × (prepare_key_package_replenishment e device later
                      (prepare_key_package_replenishment e device available s).1
                    ≡ (ok (some p), (prepare_key_package_replenishment e device available s).1)))
          × ((x : ClientError)
              → (prepare_key_package_replenishment e device available s).0 ≡ err x
              → (prepare_key_package_replenishment e device available s).1 ≡ s)
    unfolding prepare_key_package_replenishment prepared
    prepare_lem later h = elim (Bool-cases (ltb key_package_floor available)) [
      | inl over ↦ rw h (rw over (λ g. refl, λ p g. ground (arith, g), λ x g. refl))
      | inr under ↦
          let n = key_package_target - available in
          let low : available ≤ key_package_floor = ground (arith, under) in
          let stored =
            store_batch-Stored n (make_packages e n s.keys) h (make-HasLength n s.keys) in
          rw h (
            rw under (
              λ g. ground (arith, g, low),
              λ p g. let all = stored.0 p g in (omega (arith, all.1, low), all.2, rw (all.0) refl),
              stored.1,
            ))
    ]
