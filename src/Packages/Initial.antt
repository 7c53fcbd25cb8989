-- ===== src/Packages/Initial.antt =====
-- The initial key packages of a device, of core/crates/arveil-core/src/client.rs.
use arveil.Base.{
  ◌≡◌, refl, ap, ◌∙◌, Bool, false, String, List, [], ◌∷◌, none, some, Bytes, bytes_eq_refl,
  bytes_eq_iff, any, Bool-cases, Option-cases, Result, inl, inr, arith, ok, err,
}
use arveil.Sql.{count_where}
use arveil.Sql.Tables.{is_some, at, row_at, any-at, row_at-append, row_at-update_where, row_at-key}
use arveil.Client.{ClientError}
use arveil.Packages.{
  MlsEngine, MlsEngineLaws, PublicationRow, by_publication, PackageState, make_packages,
  initial_batch, store_initial, stored_initial, initial_of, initial_key_packages,
  initial_key_packages_acknowledged,
}

count-absent :
    (device : Bytes) (s : List PublicationRow)
    → any (at by_publication device) s ≡ false
    → count_where (at by_publication device) s ≡ 0
count-absent device [] h = refl
count-absent device (r ∷ s) h = ground (arith, h, count-absent device s)

module _ (e : MlsEngine) (device : Bytes) where
  acknowledged-row :
      (s : PackageState e)
      → (initial_key_packages_acknowledged e device s).0 ≡ ok tt
      → (r : PublicationRow) × (row_at by_publication device
            (initial_key_packages_acknowledged e device s).1.initial
          ≡ some r)
        × (r.batch ≡ none)
  unfolding initial_key_packages_acknowledged
  acknowledged-row s h =
      let there =
        row_at-update_where by_publication (at by_publication device)
          (λ r. record r { batch = none }) (λ r. refl) device s.initial in
      elim (Option-cases (row_at by_publication device s.initial)) [
        | inl n ↦
            let gone =
              count-absent device s.initial
                (any-at by_publication device s.initial ∙ ap is_some n) in
            absurd (ground (arith, gone, h))
        | inr (r, n) ↦
            let key =
              (bytes_eq_iff r.device_id device).1
                (row_at-key by_publication device s.initial r n) in
            (record r { batch = none }, there ∙ rw n (rw key refl), refl)
      ]

  retried :
      (complete : Bool) (t : PackageState e) (r : PublicationRow)
      → row_at by_publication device t.initial ≡ some r
      → initial_key_packages e device complete t ≡ (stored_initial e r.batch, t)
  unfolding initial_key_packages initial_of
  retried complete t r h = rw h refl

  -- The same batch, after a batch was stored.
  batch-retried :
      (laws : MlsEngineLaws e) (later : Bool) (packages ps : List Bytes) (keys : e.Keys)
      (w : Result String Bytes) (s : PackageState e)
      → any (at by_publication device) s.initial ≡ false
      → e.write_batch packages ≡ w
      → (initial_batch e device packages keys w s).0 ≡ ok (some ps)
      → initial_key_packages e device later (initial_batch e device packages keys w s).1
        ≡ (ok (some ps), (initial_batch e device packages keys w s).1)
  unfolding stored_initial
  batch-retried laws later packages ps keys (err text) s fresh w g = ground (arith, g)
  batch-retried laws later packages ps keys (ok bytes) s fresh w g =
      let row : PublicationRow = record { device_id = device; batch = some bytes } in
      let same : packages ≡ ps = ground (arith, g) in
      retried later (initial_batch e device packages keys (ok bytes) s).1 row
        (row_at-append by_publication device row s.initial fresh ∙ rw (bytes_eq_refl device) refl)
      ∙ rw (laws.reads_batch packages bytes w) (rw same refl)

  store-retried :
      (laws : MlsEngineLaws e) (later : Bool) (ps : List Bytes)
      (made : Result ClientError (List Bytes) × e.Keys) (s : PackageState e)
      → any (at by_publication device) s.initial ≡ false
      → (store_initial e device made s).0 ≡ ok (some ps)
      → initial_key_packages e device later (store_initial e device made s).1
        ≡ (ok (some ps), (store_initial e device made s).1)
  unfolding store_initial
  store-retried laws later ps (err x, keys) s fresh g = ground (arith, g)
  store-retried laws later ps (ok packages, keys) s fresh g =
      batch-retried laws later packages ps keys (e.write_batch packages) s fresh refl g

  -- The initial batch is made once: a call that answers with packages is answered by the same packages
  -- again, with nothing changed, and once the batch is acknowledged every later call answers that
  -- there is nothing to publish, and changes nothing.
  pub initial_key_packages_once :
      (laws : MlsEngineLaws e) (complete later : Bool) (ps : List Bytes) (s : PackageState e)
      → ((initial_key_packages e device complete s).0 ≡ ok (some ps)
          → initial_key_packages e device later (initial_key_packages e device complete s).1
            ≡ (ok (some ps), (initial_key_packages e device complete s).1))
        × ((initial_key_packages_acknowledged e device s).0 ≡ ok tt
            → initial_key_packages e device later (initial_key_packages_acknowledged e device s).1
              ≡ (ok none, (initial_key_packages_acknowledged e device s).1))
  unfolding initial_key_packages initial_of stored_initial
  initial_key_packages_once laws complete later ps s = (
    elim (Option-cases (row_at by_publication device s.initial)) [
      | inl n ↦
          let fresh = any-at by_publication device s.initial ∙ ap is_some n in
          elim (Bool-cases complete) [
            | inl c ↦ rw n (rw c (λ g. ground (arith, g)))
            | inr c ↦
                rw n (rw c (λ g. store-retried laws later ps (make_packages e 5 s.keys) s fresh g))
          ]
      | inr (r, n) ↦ rw n (λ g. retried later s r n ∙ ap (λ t. (t, s)) g)
    ],
    λ h.
        let (r, n, b) = acknowledged-row s h in
        retried later (initial_key_packages_acknowledged e device s).1 r n ∙ rw b refl,
  )
