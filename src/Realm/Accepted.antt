-- ===== src/Realm/Accepted.antt =====
-- The endpoint lists that a profile accepts, in core/crates/arveil-core/src/client.rs.
use arveil.Base.{
  false, ◌≡◌, ◌⊎◌, refl, ap, subst, sym, ◌∙◌, true, List, [], ◌∷◌, Option, none, some, Bytes,
  bytes_eq, bytes_eq_iff, bytes_eq_refl, Bool-cases, Result, Result-cases, inl, inr, arith, ok, err,
}
use arveil.Sql.{update_where, update_where_idem}
use arveil.Sql.Tables.{map_option, at, row_at}
use arveil.Cbor.{Serde}
use arveil.Signed.{Platform}
use arveil.Endpoints.{RealmEndpointList, verify}
use arveil.Endpoints.Laws.{Exceeds, list_verify_iff}
use arveil.Realm.{
  Failure, EnrollmentRow, RealmRow, RealmTables, by_realm, StoredRealm, stored_list, realm_of,
  realm, is_stored, known_sequence, bytes_of, acceptable, relisted, written,
  realm_accept_endpoint_list,
}
use arveil.Realm.Reading.{listed, IsRead, realm_of-IsRead, realm_of-relisted, verified_anyway}
use arveil.Realm.Unchanged.{accept-err, accept-enrollment, accept-others}

module _ (p : Platform) (lists : Serde p.cbor RealmEndpointList) (id signed : Bytes) where
  accept-realm :
      (s : RealmTables) (r : StoredRealm p lists)
      → realm p lists s ≡ ok (some r)
      → realm_accept_endpoint_list p lists id signed s
        ≡ written p lists id signed s (acceptable p lists id signed s r)
  unfolding realm_accept_endpoint_list
  accept-realm s r h = rw h refl

  acceptable-verify :
      (s : RealmTables) (r : StoredRealm p lists) (list : RealmEndpointList)
      → acceptable p lists id signed s r ≡ ok list
      → verify p lists signed r.signing_public id (
          known_sequence p lists signed
            (bytes_of p lists (row_at by_realm id s.realms))
            r.endpoint_list)
        ≡ ok list
  unfolding acceptable
  acceptable-verify s r list h =
      elim (Result-cases (
        verify p lists signed r.signing_public id (
          known_sequence p lists signed (bytes_of p lists (row_at by_realm id s.realms))
            r.endpoint_list))) [
              | inl (l, e) ↦ ground (arith, h, e)
              | inr (x, e) ↦ absurd (ground (arith, h, e))
            ]

  written-ok :
      (s : RealmTables) (a : Result Failure RealmEndpointList) (list : RealmEndpointList)
      → (written p lists id signed s a).0 ≡ ok list
      → a ≡ ok list
  written-ok s (ok l) list h = h
  written-ok s (err x) list h = absurd (ground (arith, h))

  same_list :
      (key : p.VerifyingKey) (bytes : Option Bytes) (current : Option RealmEndpointList)
      (list : RealmEndpointList)
      → stored_list p lists key id bytes ≡ ok current
      → verify p lists signed key id none ≡ ok list
      → is_stored p lists signed bytes ≡ true
      → current ≡ some list
  unfolding stored_list
  same_list key none current list h v e = absurd (ground (arith, e))
  same_list key (some b) current list h v e =
      let b_is : b ≡ signed = (bytes_eq_iff b signed).0 e in
      let u : verify p lists b key id none ≡ ok list =
        subst (λ x. verify p lists x key id none ≡ ok list) (sym b_is) v in
      ground (arith, h, u)

  -- The list that the profile has, or a newer one.
  current_or_newer :
      (key : p.VerifyingKey) (bytes : Option Bytes) (current : Option RealmEndpointList)
      (list : RealmEndpointList)
      → stored_list p lists key id bytes ≡ ok current
      → verify p lists signed key id (known_sequence p lists signed bytes current) ≡ ok list
      → (current ≡ some list) ⊎ Exceeds list.sequence (map_option (λ l. l.sequence) current)
  unfolding known_sequence stored_list
  current_or_newer key bytes current list h v = elim (Bool-cases (is_stored p lists signed bytes)) [
    | inl e ↦ inl (
        same_list key bytes current list h
          (verified_anyway p lists signed key id (known_sequence p lists signed bytes current) list
            v)
          e)
    | inr e ↦
        let newer =
          ((list_verify_iff p lists signed key id (known_sequence p lists signed bytes current)
              list).0
            v).newer in
        let all : known_sequence p lists signed bytes current
            ≡ map_option (λ l. l.sequence) current =
          rw e refl in
        inr (subst (Exceeds list.sequence) all newer)
  ]

  -- What an accepted list does to the realm.
  abbrev Moved : StoredRealm p lists → RealmEndpointList → RealmTables → Type 0
  Moved r list s =
      ((r.endpoint_list ≡ some list)
        ⊎ Exceeds list.sequence (map_option (λ l. l.sequence) r.endpoint_list))
      × (realm p lists s ≡ ok (some (listed p lists r list)))
      × (realm_accept_endpoint_list p lists id signed s ≡ (ok list, s))

  -- Accepting what is stored, from the realm that was read back.
  again :
      (s : RealmTables) (r : StoredRealm p lists) (list : RealmEndpointList)
      → bytes_of p lists (row_at by_realm id s.realms) ≡ some signed
      → realm p lists s ≡ ok (some r)
      → verify p lists signed r.signing_public id none ≡ ok list
      → update_where (at by_realm id) (relisted p lists signed list) s.realms ≡ s.realms
      → realm_accept_endpoint_list p lists id signed s ≡ (ok list, s)
  unfolding acceptable known_sequence
  again s r list b h v u =
      accept-realm s r h
      ∙ rw b (rw (bytes_eq_refl signed) (rw v (ap (λ l. (ok list, record s { realms = l })) u)))

  moved :
      (enrollment : Option EnrollmentRow) (row : RealmRow) (rest : List RealmRow)
      (r : StoredRealm p lists) (list : RealmEndpointList)
      → IsRead p lists row r
      → r.realm_id ≡ id
      → verify p lists signed r.signing_public id (
          known_sequence p lists signed
            (bytes_of p lists (row_at by_realm id (row ∷ rest)))
            r.endpoint_list)
        ≡ ok list
      → Moved r list (record {
        realms = update_where (at by_realm id) (relisted p lists signed list) (row ∷ rest);
        enrollment = enrollment;
      })
  unfolding realm
  moved enrollment row rest r list i k v =
      let key : bytes_eq row.realm_id id ≡ true =
        (bytes_eq_iff row.realm_id id).1 (i.realm_is ∙ k) in
      let known =
        known_sequence p lists signed (bytes_of p lists (row_at by_realm id (row ∷ rest)))
          r.endpoint_list in
      let alone = verified_anyway p lists signed r.signing_public id known list v in
      let here : verify p lists signed r.signing_public r.realm_id none ≡ ok list = rw k alone in
      let back = realm_of-relisted p lists row r signed list i here in
      let stored : bytes_of p lists (row_at by_realm id (row ∷ rest)) ≡ row.signed_list =
        rw key refl in
      let after : RealmTables = record {
        realms = update_where (at by_realm id) (relisted p lists signed list) (row ∷ rest);
        enrollment = enrollment;
      } in
      let read : realm p lists after ≡ ok (some (listed p lists r list)) = rw key (rw back refl) in
      (
        current_or_newer r.signing_public row.signed_list r.endpoint_list list
            (subst
              (λ x. stored_list p lists r.signing_public x row.signed_list ≡ ok r.endpoint_list) k
              i.list_is)
            (subst
              (λ b.
                verify p lists signed r.signing_public id
                  (known_sequence p lists signed b r.endpoint_list)
                ≡ ok list)
              stored v),
        read,
        again after (listed p lists r list) list (rw key (rw key refl)) read alone (
            update_where_idem (at by_realm id) (relisted p lists signed list) (row ∷ rest)
              (λ x. refl) (λ x. refl)),
      )

  accept-rows :
      (enrollment : Option EnrollmentRow) (rows : List RealmRow) (r : StoredRealm p lists)
      (list : RealmEndpointList)
      → realm p lists (record { realms = rows; enrollment = enrollment }) ≡ ok (some r)
      → r.realm_id ≡ id
      → (realm_accept_endpoint_list p lists id signed
          (record { realms = rows; enrollment = enrollment })).0
        ≡ ok list
      → Moved r list
          (realm_accept_endpoint_list p lists id signed
            (record { realms = rows; enrollment = enrollment })).1
  unfolding realm
  accept-rows enrollment [] r list h k g = absurd (ground (arith, h))
  accept-rows enrollment (row ∷ rest) r list h k g =
      let s : RealmTables = record { realms = row ∷ rest; enrollment = enrollment } in
      let read : realm_of p lists row ≡ ok r = elim (Result-cases (realm_of p lists row)) [
        | inl (q, e) ↦ ground (arith, h, e)
        | inr (x, e) ↦ absurd (ground (arith, h, e))
      ] in
      let whole = accept-realm s r h in
      let a =
        written-ok s (acceptable p lists id signed s r) list (sym (ap (λ x. x.0) whole) ∙ g) in
      let out = ap (λ x. x.1) (whole ∙ ap (written p lists id signed s) a) in
      subst (Moved r list) (sym out) (
        moved enrollment row rest r list (realm_of-IsRead p lists row r read) k
          (acceptable-verify s r list a))

  -- Where the realm that the profile reads is the named one, a list that it takes is the list
  -- that the realm has or one of a higher sequence; the realm is then read back with that list
  -- and the transport key that it names, all else of it unchanged, and taking the same bytes once
  -- more gives the same list and changes nothing. In any tables, with this realm, with another
  -- one, with an unreadable one or with none, a refusal changes nothing, and neither the
  -- enrollment nor the row of any other realm ever changes.
  pub accept_endpoint_list_lem :
      (s : RealmTables) (r : StoredRealm p lists) (list : RealmEndpointList) (x : Failure)
      → (realm p lists s ≡ ok (some r)
          → r.realm_id ≡ id
          → (realm_accept_endpoint_list p lists id signed s).0 ≡ ok list
          → ((r.endpoint_list ≡ some list)
              ⊎ Exceeds list.sequence (map_option (λ l. l.sequence) r.endpoint_list))
            × (realm p lists (realm_accept_endpoint_list p lists id signed s).1
                ≡ ok (
                    some (record r {
                      endpoint_list = some list;
                      noise_public = list.realm_noise_public_key;
                    })))
            × (realm_accept_endpoint_list p lists id signed
                  (realm_accept_endpoint_list p lists id signed s).1
                ≡ (ok list, (realm_accept_endpoint_list p lists id signed s).1)))
        × ((realm_accept_endpoint_list p lists id signed s).0 ≡ err x
            → (realm_accept_endpoint_list p lists id signed s).1 ≡ s)
        × ((realm_accept_endpoint_list p lists id signed s).1.enrollment ≡ s.enrollment)
        × ((other : Bytes)
            → bytes_eq other id ≡ false
            → row_at by_realm other (realm_accept_endpoint_list p lists id signed s).1.realms
              ≡ row_at by_realm other s.realms)
  accept_endpoint_list_lem s r list x = (
    accept-rows s.enrollment s.realms r list,
    accept-err p lists id signed s x,
    accept-enrollment p lists id signed s,
    accept-others p lists id signed s,
  )
