-- ===== src/Chain/Tests.antt =====
-- Manifests that arrive at a profile, and the theorems at concrete inputs.
use arveil.Base.{
  ℕ, ◌+◌, ◌<◌, ◌^◌, ◌≡◌, refl, ◌∙◌, sym, Bool, true, false, List, [], ◌∷◌, Option, none, some,
  Bytes, bytes_eq, arith, ok, err, replicate, if◌then◌else◌,
}
use arveil.Sql.{first_where}
use arveil.Cbor.{Serde}
use arveil.Sample.{platform, cbor, serde, manifests, put_list, get_list, put_object, put_manifest}
use arveil.Signed.{verify_value, verify, peek, signing_input, u16_be}
use arveil.Identity.{
  DeviceManifest, manifest_context, identity_id, hash, manifest_hash, accept_manifest, check_known,
}
use arveil.Identity.Manifests.{keep}
use arveil.Chain.{
  ManifestRow, PeerRow, ProfileTables, DeviceChange, manifest_state, manifest_accept_own, is_new,
  device_change, device_revoked, root_of, peer_manifest_accept, peer_manifest_state,
}
use arveil.Chain.Peers.{peer_manifest_state-keep}
use arveil.Chain.Own.{manifest_state-keep}
use arveil.Chain.Accepted.{own, of_peer, arrive, arrive_all, accepted_body, revocation_is_final}

-- The list of hashes on the sample platform.
abbrev hash_lists : Serde cbor (List Bytes)
hash_lists = serde (λ l. put_list l []) (λ bytes. ok (get_list 9 bytes).0)

abbrev write_hashes : List Bytes → Bytes
write_hashes l = put_list l []

abbrev peer : Bytes
peer = identity_id platform 7

-- A manifest of the root 7 that revokes the credential 9.
abbrev revoking_body : ℕ → DeviceManifest
revoking_body sequence = record {
  version = 1;
  identity_id = peer;
  manifest_sequence = sequence;
  previous_manifest_hash = [];
  active_credential_hashes = (8 ∷ []) ∷ [];
  revoked_credential_hashes = (9 ∷ []) ∷ [];
}

abbrev revoking : ℕ → Bytes
revoking sequence =
    let body = put_manifest (revoking_body sequence) in
    put_object (record {
      context = manifest_context;
      body = body;
      signature = platform.sign_bytes 7 (signing_input manifest_context body);
    })

-- One peer, with the device 3 and the credential 9, whose route carried the root 7.
abbrev tables : ProfileTables
tables = record {
  manifest = record { identity_id = peer; sequence = 1; signed = []; hash = 6 ∷ [] } ∷ [];
  peers =
      record {
        group_id = 1 ∷ [];
        device_id = 3 ∷ [];
        peer_identity = peer;
        credential_hash = 9 ∷ [];
        root_public = 7 ∷ replicate 31 0;
        revoked = 0;
      }
      ∷ [];
  identity_devices = [];
  peer_manifests = [];
}

changes_are_counted :
    device_change ((1 ∷ []) ∷ (2 ∷ []) ∷ (2 ∷ []) ∷ []) (some ((2 ∷ []) ∷ (3 ∷ []) ∷ []))
    ≡ record { added = 1; removed = 1 }
unfolding device_change arveil.Chain.count_difference arveil.Base.bytes_eq
changes_are_counted = refl

peer_root :
    root_of platform manifests hash_lists write_hashes
      (first_where (λ r. bytes_eq r.peer_identity peer) tables.peers)
    ≡ ok 7
unfolding root_of identity_id hash arveil.Base.bytes_eq
peer_root = refl

own_accepted :
    accept_manifest platform manifests (revoking 5) 7 (manifest_state tables)
    ≡ ok (revoking_body 5, record { sequence = 5; hash = manifest_hash platform (revoking 5) })
unfolding accept_manifest check_known verify_value verify peek identity_id hash signing_input u16_be
    manifest_state arveil.Chain.newest arveil.Base.bytes_eq arveil.Sample.get arveil.Sample.put
    put_list get_list
own_accepted = refl

peer_manifest_state-keep_example :
    peer_manifest_state peer
      (peer_manifest_accept platform manifests hash_lists write_hashes peer (revoking 5) tables).1
    ≡ (if bytes_eq peer peer
        then keep platform manifests 7
            (peer_manifest_state peer tables)
            (accept_manifest platform manifests (revoking 5) 7 (peer_manifest_state peer tables))
        else peer_manifest_state peer tables)
peer_manifest_state-keep_example =
    peer_manifest_state-keep platform manifests hash_lists write_hashes peer peer (revoking 5) 7
      tables peer_root

manifest_state-keep_example :
    manifest_state (manifest_accept_own platform manifests (some 7) (revoking 5) tables).1
    ≡ keep platform manifests 7
        (manifest_state tables)
        (accept_manifest platform manifests (revoking 5) 7 (manifest_state tables))
manifest_state-keep_example =
    (manifest_state-keep platform manifests 7 (revoking 5) tables (omega arith, tt)
      (λ body state e. ground (arith, sym own_accepted ∙ e))).0

revoking_accepted :
    accepted_body platform manifests hash_lists write_hashes (own (some 7) (revoking 5)) tables
    ≡ some (revoking_body 5)
unfolding manifest_accept_own arveil.Chain.store_own arveil.Chain.inserted
    arveil.Chain.insert_manifest accept_manifest check_known verify_value verify peek identity_id
    hash signing_input u16_be manifest_state arveil.Chain.newest arveil.Base.bytes_eq
    arveil.Sample.get arveil.Sample.put put_list get_list
revoking_accepted = refl

revocation_is_final_example :
    device_revoked (3 ∷ []) (
      arrive_all platform manifests hash_lists write_hashes
        (of_peer peer (revoking 6) ∷ [])
        (arrive platform manifests hash_lists write_hashes (own (some 7) (revoking 5)) tables))
    ≡ true
unfolding arveil.Base.bytes_eq
revocation_is_final_example =
    revocation_is_final platform manifests hash_lists write_hashes (3 ∷ []) (9 ∷ [])
      (own (some 7) (revoking 5)) (of_peer peer (revoking 6) ∷ []) (revoking_body 5) tables
      (omega arith, tt) revoking_accepted refl refl
