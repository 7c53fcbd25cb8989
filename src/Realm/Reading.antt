-- ===== src/Realm/Reading.antt =====
-- What a stored realm has of its row, in core/crates/arveil-core/src/client.rs.
use arveil.Base.{
  ℕ, ◌≡◌, refl, subst, not, Option, none, some, Bytes, ◌==◌, Result-cases, inl, inr, arith, ok,
}
use arveil.Cbor.{Serde}
use arveil.Signed.{Platform}
use arveil.Endpoints.{RealmEndpointList, verify}
use arveil.Endpoints.Laws.{list_verify_iff}
use arveil.Realm.{RealmRow, StoredRealm, stored_key, stored_list, realm_of, relisted}

module _ (p : Platform) (lists : Serde p.cbor RealmEndpointList) where
  abbrev pub listed : StoredRealm p lists → RealmEndpointList → StoredRealm p lists
  listed r list = record r { endpoint_list = some list; noise_public = list.realm_noise_public_key }

  -- What a stored realm has of its row.
  pub record IsRead (row : RealmRow) (r : StoredRealm p lists) : Type 0 where
    pub key_is : stored_key p lists row.signing_public ≡ ok r.signing_public
    pub realm_is : row.realm_id ≡ r.realm_id
    pub list_is :
        stored_list p lists r.signing_public r.realm_id row.signed_list ≡ ok r.endpoint_list
    pub url_is : row.bootstrap_url ≡ r.bootstrap_url
    pub enrolled_is : not (row.enrolled == 0) ≡ r.enrolled

  abbrev read_row : RealmRow → p.VerifyingKey → Option RealmEndpointList → StoredRealm p lists
  read_row row key list = record {
    realm_id = row.realm_id;
    signing_public = key;
    noise_public = row.noise_public;
    bootstrap_url = row.bootstrap_url;
    endpoint_list = list;
    enrolled = not (row.enrolled == 0);
  }

  pub realm_of-IsRead :
      (row : RealmRow) (r : StoredRealm p lists) → realm_of p lists row ≡ ok r → IsRead row r
  unfolding realm_of
  realm_of-IsRead row r h = elim (Result-cases (stored_key p lists row.signing_public)) [
    | inr (x, k) ↦ absurd (ground (arith, h, k))
    | inl (key, k) ↦ elim (Result-cases (stored_list p lists key row.realm_id row.signed_list)) [
      | inr (x, l) ↦ absurd (ground (arith, h, k, l))
      | inl (list, l) ↦
          let read : read_row row key list ≡ r = ground (arith, h, k, l) in
          subst (IsRead row) read
            (record { key_is = k; realm_is = refl; list_is = l; url_is = refl; enrolled_is = refl })
    ]
  ]

  pub realm_of-relisted :
      (row : RealmRow) (r : StoredRealm p lists) (signed : Bytes) (list : RealmEndpointList)
      → IsRead row r
      → verify p lists signed r.signing_public r.realm_id none ≡ ok list
      → realm_of p lists (relisted p lists signed list row) ≡ ok (listed r list)
  unfolding realm_of stored_list
  realm_of-relisted row r signed list i v =
      rw (i.key_is) (rw (i.realm_is) (rw v (rw (i.url_is) (rw (i.enrolled_is) refl))))

  -- A list that is accepted after another would be accepted as the first.
  pub verified_anyway :
      (signed : Bytes) (key : p.VerifyingKey) (id : Bytes) (known : Option ℕ)
      (list : RealmEndpointList)
      → verify p lists signed key id known ≡ ok list
      → verify p lists signed key id none ≡ ok list
  verified_anyway signed key id known list h =
      let a = (list_verify_iff p lists signed key id known list).0 h in
      (list_verify_iff p lists signed key id none list).1 (record {
        verified = a.verified;
        version_is = a.version_is;
        realm_is = a.realm_is;
        newer = tt;
        some_endpoint = a.some_endpoint;
      })
