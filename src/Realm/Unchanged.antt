-- ===== src/Realm/Unchanged.antt =====
-- What accepting an endpoint list leaves alone, in core/crates/arveil-core/src/client.rs.
use arveil.Base.{
  false, Option-cases, ◌≡◌, refl, ap, sym, ◌∙◌, Bytes, bytes_eq, Result, inl, inr, arith, ok, err,
  ok_or, ◌>>=◌,
}
use arveil.Sql.Tables.{at, row_at, row_at-update_where, row_at-key}
use arveil.Cbor.{Serde}
use arveil.Signed.{Platform}
use arveil.Endpoints.{RealmEndpointList}
use arveil.Client.{no_device}
use arveil.Realm.{
  Failure, error, RealmTables, by_realm, realm, acceptable, relisted, written,
  realm_accept_endpoint_list,
}

module _ (p : Platform) (lists : Serde p.cbor RealmEndpointList) (id signed : Bytes) where
  written-err :
      (s : RealmTables) (a : Result Failure RealmEndpointList) (x : Failure)
      → (written p lists id signed s a).0 ≡ err x
      → (written p lists id signed s a).1 ≡ s
  written-err s (ok l) x h = absurd (ground (arith, h))
  written-err s (err y) x h = refl

  -- What a write leaves alone.
  written-enrollment :
      (s : RealmTables) (a : Result Failure RealmEndpointList)
      → (written p lists id signed s a).1.enrollment ≡ s.enrollment
  written-enrollment s (err x) = refl
  written-enrollment s (ok l) = refl

  written-others :
      (s : RealmTables) (a : Result Failure RealmEndpointList) (other : Bytes)
      → bytes_eq other id ≡ false
      → row_at by_realm other (written p lists id signed s a).1.realms
        ≡ row_at by_realm other s.realms
  written-others s (err x) other h = refl
  written-others s (ok l) other h =
      row_at-update_where by_realm (at by_realm id) (relisted p lists signed l) (λ r. refl) other
        s.realms
      ∙ elim (Option-cases (row_at by_realm other s.realms)) [
        | inl n ↦ rw n refl
        | inr (r, n) ↦
            let key = row_at-key by_realm other s.realms r n in
            let apart : bytes_eq r.realm_id id ≡ false = ap (λ k. bytes_eq k id) key ∙ h in
            rw n (rw apart refl)
      ]

  accept-written :
      (s : RealmTables)
      → (a : Result Failure RealmEndpointList) × (realm_accept_endpoint_list p lists id signed s
          ≡ written p lists id signed s a)
  unfolding realm_accept_endpoint_list
  accept-written s = (
    do found ← realm p lists s; r ← ok_or found (error no_device); acceptable p lists id signed s r,
    refl,
  )

  pub accept-err :
      (s : RealmTables) (x : Failure)
      → (realm_accept_endpoint_list p lists id signed s).0 ≡ err x
      → (realm_accept_endpoint_list p lists id signed s).1 ≡ s
  accept-err s x h =
      let (a, e) = accept-written s in
      ap (λ t. t.1) e ∙ written-err s a x (sym (ap (λ t. t.0) e) ∙ h)

  pub accept-enrollment :
      (s : RealmTables)
      → (realm_accept_endpoint_list p lists id signed s).1.enrollment ≡ s.enrollment
  accept-enrollment s =
      let (a, e) = accept-written s in ap (λ t. t.1.enrollment) e ∙ written-enrollment s a

  pub accept-others :
      (s : RealmTables) (other : Bytes)
      → bytes_eq other id ≡ false
      → row_at by_realm other (realm_accept_endpoint_list p lists id signed s).1.realms
        ≡ row_at by_realm other s.realms
  accept-others s other h =
      let (a, e) = accept-written s in
      ap (λ t. row_at by_realm other t.1.realms) e ∙ written-others s a other h
