-- ===== src/Chain/Peers.antt =====
-- What a profile remembers of a peer's manifests, in core/crates/arveil-core/src/client.rs.
use arveil.Base.{
  ◌≡◌, refl, ap, sym, ◌∙◌, true, false, List, [], ◌∷◌, Option, none, some, Bytes, bytes_eq,
  bytes_eq_iff, any, if◌then◌else◌, Bool-cases, Option-cases, Result-cases, inl, inr, arith, ok,
}
use arveil.Sql.{first_where}
use arveil.Sql.Tables.{
  map_option, is_some, at, row_at, any-at, row_at-append, row_at-update_where, row_at-key,
}
use arveil.Cbor.{Serde}
use arveil.Signed.{Platform}
use arveil.Identity.{DeviceManifest, ManifestState, accept_manifest}
use arveil.Identity.Manifests.{keep, accept_manifest_iff}
use arveil.Chain.{
  PeerManifestRow, ProfileTables, by_peer, peers_mark_revoked, mark_one, is_new, replaced,
  put_peer_manifest, peer_state_of, peer_manifest_state, peer_row, store_peer, with_root, root_of,
  peer_manifest_accept,
}

marks-peer_manifests :
    (hashes : List Bytes) (s : ProfileTables)
    → (peers_mark_revoked hashes s).1.peer_manifests ≡ s.peer_manifests
unfolding peers_mark_revoked
marks-peer_manifests [] s = refl
marks-peer_manifests (h ∷ hashes) s = marks-peer_manifests hashes (mark_one h s)

-- The upsert leaves its own row under the identity, and every other one as it was.
put-state :
    (r : PeerManifestRow) (other : Bytes) (s : List PeerManifestRow)
    → map_option peer_state_of (row_at by_peer other (put_peer_manifest r s)) ≡ (
        if bytes_eq r.identity_id other
        then some (peer_state_of r)
        else map_option peer_state_of (row_at by_peer other s))
unfolding put_peer_manifest
put-state r other s = elim (Bool-cases (any (at by_peer r.identity_id) s)) [
  | inr e ↦ rw e (
      ap (map_option peer_state_of) (row_at-append by_peer other r s e)
      ∙ elim (Bool-cases (bytes_eq r.identity_id other)) [ inl q ↦ rw q refl | inr q ↦ rw q refl ])
  | inl e ↦ rw e (
      ap (map_option peer_state_of)
        (row_at-update_where by_peer (at by_peer r.identity_id) (replaced r) (λ x. refl) other s)
      ∙ elim (Option-cases (row_at by_peer other s)) [
        | inl n ↦
            let held : is_some (row_at by_peer r.identity_id s) ≡ true =
              sym (any-at by_peer r.identity_id s) ∙ e in
            elim (Bool-cases (bytes_eq r.identity_id other)) [
              | inl q ↦ ground (
                arith,
                n,
                held,
                ap (λ k. row_at by_peer k s) ((bytes_eq_iff r.identity_id other).0 q),
              )
              | inr q ↦ rw n (rw q refl)
            ]
        | inr (x, f) ↦
            let key = row_at-key by_peer other s x f in
            elim (Bool-cases (bytes_eq r.identity_id other)) [
              | inl q ↦
                  let hit : bytes_eq x.identity_id r.identity_id ≡ true =
                    (bytes_eq_iff x.identity_id r.identity_id).1
                      (key ∙ sym ((bytes_eq_iff r.identity_id other).0 q)) in
                  rw f (rw q (rw hit refl))
              | inr q ↦
                  let miss : bytes_eq x.identity_id r.identity_id ≡ false = ground (
                    arith,
                    key,
                    q,
                    bytes_eq_iff x.identity_id r.identity_id,
                    bytes_eq_iff r.identity_id other,
                  ) in
                  rw f (rw q (rw miss refl))
            ]
      ])
]

marks-state :
    (other : Bytes) (hashes : List Bytes) (s : ProfileTables)
    → peer_manifest_state other (peers_mark_revoked hashes s).1 ≡ peer_manifest_state other s
unfolding peer_manifest_state
marks-state other hashes s =
    ap (λ t. map_option peer_state_of (row_at by_peer other t)) (marks-peer_manifests hashes s)

-- A state that is where it was.
unchanged :
    (peer other : Bytes) (s : ProfileTables) (o : Option ManifestState)
    → peer_manifest_state peer s ≡ o
    → peer_manifest_state other s ≡ (if bytes_eq peer other then o else peer_manifest_state other s)
unchanged peer other s o h = elim (Bool-cases (bytes_eq peer other)) [
  | inl e ↦ rw e (ap (λ k. peer_manifest_state k s) (sym ((bytes_eq_iff peer other).0 e)) ∙ h)
  | inr e ↦ rw e refl
]

module _ (p : Platform) (manifests : Serde p.cbor DeviceManifest)
    (hashes : Serde p.cbor (List Bytes)) (write_hashes : List Bytes → Bytes) where
  -- What was at the same sequence is what is known.
  same_state :
      (signed : Bytes) (root : p.VerifyingKey) (known : Option ManifestState)
      (body : DeviceManifest) (state : ManifestState)
      → accept_manifest p manifests signed root known ≡ ok (body, state)
      → is_new known state ≡ false
      → known ≡ some state
  same_state signed root none body state e old = ground (arith, old)
  same_state signed root (some k) body state e old =
      let a = (accept_manifest_iff p manifests signed root (some k) body state).0 e in
      ground (arith, a.remembers, a.extends, old)

  store_peer-keep :
      (peer other signed : Bytes) (root : p.VerifyingKey) (s : ProfileTables)
      → peer_manifest_state other
          (store_peer p manifests hashes write_hashes peer
            (peer_manifest_state peer s)
            (accept_manifest p manifests signed root (peer_manifest_state peer s))
            s).1
        ≡ (if bytes_eq peer other
            then keep p manifests root
                (peer_manifest_state peer s)
                (accept_manifest p manifests signed root (peer_manifest_state peer s))
            else peer_manifest_state other s)
  unfolding store_peer peer_manifest_state
  store_peer-keep peer other signed root s =
      let known = peer_manifest_state peer s in
      elim (Result-cases (accept_manifest p manifests signed root known)) [
        | inl ((body, state), e) ↦ elim (Bool-cases (is_new known state)) [
          | inl new ↦ rw e (
              rw new (
                marks-state other body.revoked_credential_hashes _
                ∙ put-state (peer_row p manifests hashes write_hashes peer body state) other
                    s.peer_manifests))
          | inr old ↦ rw e (
              rw old (
                marks-state other body.revoked_credential_hashes s
                ∙ unchanged peer other s (some state)
                    (same_state signed root known body state e old)))
        ]
        | inr (x, e) ↦ rw e (unchanged peer other s known refl)
      ]

  -- What a profile remembers of a peer follows the peer's chain: where a route has taught the peer's
  -- root key, a manifest that `accept_manifest` accepts under it is remembered with its sequence and
  -- hash, one that it refuses changes nothing, and what is known of any other identity stays.
  pub peer_manifest_state-keep :
      (peer other signed : Bytes) (root : p.VerifyingKey) (s : ProfileTables)
      → root_of p manifests hashes write_hashes
          (first_where (λ r. bytes_eq r.peer_identity peer) s.peers)
        ≡ ok root
      → peer_manifest_state other
          (peer_manifest_accept p manifests hashes write_hashes peer signed s).1
        ≡ (if bytes_eq peer other
            then keep p manifests root
                (peer_manifest_state peer s)
                (accept_manifest p manifests signed root (peer_manifest_state peer s))
            else peer_manifest_state other s)
  unfolding peer_manifest_accept with_root
  peer_manifest_state-keep peer other signed root s r =
      rw r (store_peer-keep peer other signed root s)
