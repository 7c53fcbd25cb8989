-- ===== src/Chain/Accepted.antt =====
-- Accepted manifests and the devices they revoke, in core/crates/arveil-core/src/client.rs.
use arveil.Base.{
  ◌≡◌, ◌∙◌, Bool, true, List, [], ◌∷◌, Option, none, some, Bytes, bytes_eq, any, Bool-cases, Result,
  Result-cases, inl, inr, arith, ok, err,
}
use arveil.Cbor.{Serde}
use arveil.Signed.{Platform}
use arveil.Identity.{IdentityError, DeviceManifest, ManifestState, accept_manifest}
use arveil.Client.{ClientError}
use arveil.Chain.{
  ProfileTables, device_revoked, is_new, insert_manifest, accepted_row, inserted, store_own,
  manifest_accept_own, DeviceChange, store_peer, with_root, peer_manifest_accept,
  peer_manifest_state,
}
use arveil.Chain.Revoked.{
  HasFlags, knows, is_marked, device_revoked-is_marked, marks-listed, marks-keep,
}

module _ (p : Platform) (manifests : Serde p.cbor DeviceManifest)
    (hashes : Serde p.cbor (List Bytes)) (write_hashes : List Bytes → Bytes) where
  -- A manifest of this identity or of a peer arrives.
  pub data Arrival : Type 0 where
    own : Option p.VerifyingKey → Bytes → Arrival
    of_peer : Bytes → Bytes → Arrival

  abbrev pub arrive : Arrival → ProfileTables → ProfileTables
  arrive (own root signed) s = (manifest_accept_own p manifests root signed s).1
  arrive (of_peer peer signed) s =
      (peer_manifest_accept p manifests hashes write_hashes peer signed s).1

  abbrev pub arrive_all : List Arrival → ProfileTables → ProfileTables
  arrive_all [] s = s
  arrive_all (a ∷ more) s = arrive_all more (arrive a s)

  -- The body that an arrival gave, if it was accepted.
  abbrev pub own_body : Result ClientError (DeviceManifest × Bool) → Option DeviceManifest
  own_body (ok (body, new)) = some body
  own_body (err e) = none

  abbrev pub peer_body :
      Result ClientError (DeviceManifest × Bool × DeviceChange) → Option DeviceManifest
  peer_body (ok (body, new, change)) = some body
  peer_body (err e) = none

  abbrev pub accepted_body : Arrival → ProfileTables → Option DeviceManifest
  accepted_body (own root signed) s = own_body (manifest_accept_own p manifests root signed s).0
  accepted_body (of_peer peer signed) s =
      peer_body (peer_manifest_accept p manifests hashes write_hashes peer signed s).0

  module _ (d h : Bytes) where
    -- The body of a result lists the hash, and the state after it has the mark.
    abbrev Marks : Option DeviceManifest → ProfileTables → Type 0
    Marks o t =
        (body : DeviceManifest)
        → o ≡ some body
        → any (λ x. bytes_eq x h) body.revoked_credential_hashes ≡ true
        → is_marked d t ≡ true

    inserted-Marks :
        (b : DeviceManifest) (rows : Result ClientError _) (s : ProfileTables)
        → HasFlags s
        → knows d h s ≡ true
        → Marks (own_body (inserted b rows s).0) (inserted b rows s).1
    unfolding inserted
    inserted-Marks b (err e) s w k = λ body f l. ground (arith, f)
    inserted-Marks b (ok rows) s w k = λ body f l.
        marks-listed d h b.revoked_credential_hashes (record s { manifest = rows }) w k
          (ground (arith, f, l))

    store_own-Marks :
        (signed : Bytes) (known : Option ManifestState)
        (r : Result IdentityError (DeviceManifest × ManifestState)) (s : ProfileTables)
        → HasFlags s
        → knows d h s ≡ true
        → Marks
            (own_body (store_own p manifests signed known r s).0)
            (store_own p manifests signed known r s).1
    unfolding store_own
    store_own-Marks signed known (err e) s w k = λ body f l. ground (arith, f)
    store_own-Marks signed known (ok (b, state)) s w k = elim (Bool-cases (is_new known state)) [
      | inl new ↦
          rw new (inserted-Marks b (insert_manifest (accepted_row signed b state) s.manifest) s w k)
      | inr old ↦
          rw old
            (λ body f l. marks-listed d h b.revoked_credential_hashes s w k (ground (arith, f, l)))
    ]

    store_peer-Marks :
        (peer : Bytes) (known : Option ManifestState)
        (r : Result IdentityError (DeviceManifest × ManifestState)) (s : ProfileTables)
        → HasFlags s
        → knows d h s ≡ true
        → Marks
            (peer_body (store_peer p manifests hashes write_hashes peer known r s).0)
            (store_peer p manifests hashes write_hashes peer known r s).1
    unfolding store_peer
    store_peer-Marks peer known (err e) s w k = λ body f l. ground (arith, f)
    store_peer-Marks peer known (ok (b, state)) s w k = elim (Bool-cases (is_new known state)) [
      | inl new ↦
          rw new
            (λ body f l. marks-listed d h b.revoked_credential_hashes _ w k (ground (arith, f, l)))
      | inr old ↦
          rw old
            (λ body f l. marks-listed d h b.revoked_credential_hashes s w k (ground (arith, f, l)))
    ]

    with_root-Marks :
        (peer signed : Bytes) (r : Result ClientError p.VerifyingKey) (s : ProfileTables)
        → HasFlags s
        → knows d h s ≡ true
        → Marks
            (peer_body (with_root p manifests hashes write_hashes peer signed r s).0)
            (with_root p manifests hashes write_hashes peer signed r s).1
    unfolding with_root
    with_root-Marks peer signed (err e) s w k = λ body f l. ground (arith, f)
    with_root-Marks peer signed (ok root) s w k = store_peer-Marks peer _ _ s w k

    arrive-Marks :
        (a : Arrival) (s : ProfileTables)
        → HasFlags s
        → knows d h s ≡ true
        → Marks (accepted_body a s) (arrive a s)
    unfolding manifest_accept_own peer_manifest_accept
    arrive-Marks (own none signed) s w k = λ body f l. ground (arith, f)
    arrive-Marks (own (some root) signed) s w k = store_own-Marks signed _ _ s w k
    arrive-Marks (of_peer peer signed) s w k = with_root-Marks peer signed _ s w k

  -- A mark stays.
  module _ (d : Bytes) where
    inserted-keeps :
        (b : DeviceManifest) (rows : Result ClientError _) (s : ProfileTables)
        → is_marked d s ≡ true
        → is_marked d (inserted b rows s).1 ≡ true
    unfolding inserted
    inserted-keeps b (err e) s m = m
    inserted-keeps b (ok rows) s m =
        marks-keep d b.revoked_credential_hashes (record s { manifest = rows }) m

    store_own-keeps :
        (signed : Bytes) (known : Option ManifestState)
        (r : Result IdentityError (DeviceManifest × ManifestState)) (s : ProfileTables)
        → is_marked d s ≡ true
        → is_marked d (store_own p manifests signed known r s).1 ≡ true
    unfolding store_own
    store_own-keeps signed known (err e) s m = m
    store_own-keeps signed known (ok (b, state)) s m = elim (Bool-cases (is_new known state)) [
      | inl new ↦ rw new (inserted-keeps b _ s m)
      | inr old ↦ rw old (marks-keep d b.revoked_credential_hashes s m)
    ]

    with_root-keeps :
        (peer signed : Bytes) (r : Result ClientError p.VerifyingKey) (s : ProfileTables)
        → is_marked d s ≡ true
        → is_marked d (with_root p manifests hashes write_hashes peer signed r s).1 ≡ true
    unfolding with_root store_peer
    with_root-keeps peer signed (err e) s m = m
    with_root-keeps peer signed (ok root) s m =
        elim (Result-cases (accept_manifest p manifests signed root (peer_manifest_state peer s))) [
          | inl ((b, state), e) ↦ elim (Bool-cases (is_new (peer_manifest_state peer s) state)) [
            | inl new ↦ rw e (rw new (marks-keep d b.revoked_credential_hashes _ m))
            | inr old ↦ rw e (rw old (marks-keep d b.revoked_credential_hashes s m))
          ]
          | inr (x, e) ↦ rw e m
        ]

    arrive-keeps :
        (a : Arrival) (s : ProfileTables) → is_marked d s ≡ true → is_marked d (arrive a s) ≡ true
    unfolding manifest_accept_own peer_manifest_accept
    arrive-keeps (own none signed) s m = m
    arrive-keeps (own (some root) signed) s m = store_own-keeps signed _ _ s m
    arrive-keeps (of_peer peer signed) s m = with_root-keeps peer signed _ s m

    arrive_all-keeps :
        (more : List Arrival) (s : ProfileTables)
        → is_marked d s ≡ true
        → is_marked d (arrive_all more s) ≡ true
    arrive_all-keeps [] s m = m
    arrive_all-keeps (a ∷ more) s m = arrive_all-keeps more (arrive a s) (arrive-keeps a s m)

  -- A revocation takes effect and is final: where a manifest of this identity or of a peer is
  -- accepted and lists a credential hash as revoked, every device that a peer row knows with that
  -- credential counts as revoked afterwards, and after any further manifests, accepted or refused.
  pub revocation_is_final :
      (d h : Bytes) (a : Arrival) (more : List Arrival) (body : DeviceManifest) (s : ProfileTables)
      → HasFlags s
      → accepted_body a s ≡ some body
      → any (λ x. bytes_eq x h) body.revoked_credential_hashes ≡ true
      → knows d h s ≡ true
      → device_revoked d (arrive_all more (arrive a s)) ≡ true
  revocation_is_final d h a more body s w f l k =
      device_revoked-is_marked d (arrive_all more (arrive a s))
      ∙ arrive_all-keeps d more (arrive a s) (arrive-Marks d h a s w k body f l)
