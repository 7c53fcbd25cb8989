-- ===== src/Chain.antt =====
-- The manifests that a profile accepts and the devices they revoke, of
-- core/crates/arveil-core/src/client.rs. A sequence is a u64 that the tables hold as an i64, so that
-- `ORDER BY sequence` compares signed numbers. The serde view of a list of hashes is a parameter.
pub mod Peers
pub mod Own
pub mod Revoked
pub mod Accepted
mod Tests
use arveil.Base.{
  ℕ, ◌+◌, ◌*◌, ◌%◌, ◌^◌, Bool, true, false, not, ◌&&◌, ◌||◌, List, [], ◌∷◌, ◌++◌, Option, none,
  some, Bytes, bytes_eq, any, length, ltb, ◌==◌, max, if◌then◌else◌, map, Result, ok, err, ◌>>=◌,
  map_err, refuse_if, ok_or,
}
use arveil.Sql.{constraint, update_where, count_where, first_where}
use arveil.Sql.Tables.{Keyed, by_blob, map_option, is_some, at, row_at}
use arveil.Cbor.{Serde}
use arveil.Signed.{Platform}
use arveil.Identity.{IdentityError, DeviceManifest, ManifestState, accept_manifest}
use arveil.Client.{ClientError, sqlite, identity, no_identity, unknown_identity}

-- A row of `manifest`.
pub record ManifestRow : Type 0 where
  pub identity_id : Bytes
  pub sequence : ℕ
  pub signed : Bytes
  pub hash : Bytes

-- A row of `peers`.
pub record PeerRow : Type 0 where
  pub group_id : Bytes
  pub device_id : Bytes
  pub peer_identity : Bytes
  pub credential_hash : Bytes
  pub root_public : Bytes
  pub revoked : ℕ

-- A row of `identity_devices`.
pub record OwnDeviceRow : Type 0 where
  pub device_id : Bytes
  pub credential_hash : Bytes
  pub revoked : ℕ

-- A row of `peer_manifests`.
pub record PeerManifestRow : Type 0 where
  pub identity_id : Bytes
  pub sequence : ℕ
  pub hash : Bytes
  pub active : Option Bytes

pub record ProfileTables : Type 0 where
  pub manifest : List ManifestRow
  pub peers : List PeerRow
  pub identity_devices : List OwnDeviceRow
  pub peer_manifests : List PeerManifestRow

abbrev pub by_peer : Keyed Bytes PeerManifestRow
by_peer = by_blob (λ r. r.identity_id)

-- `sequence as i64`, as its place among the i64.
abbrev pub as_i64 : ℕ → ℕ
as_i64 n = (n + 2 ^ 63) % 2 ^ 64

-- `ORDER BY sequence DESC LIMIT 1`
abbrev pub newer : ManifestRow → Option ManifestRow → Option ManifestRow
newer r none = some r
newer r (some q) = if ltb (as_i64 r.sequence) (as_i64 q.sequence) then some q else some r

unfoldable pub newest : List ManifestRow → Option ManifestRow
newest [] = none
newest (r ∷ s) = newer r (newest s)

abbrev pub state_of : ManifestRow → ManifestState
state_of r = record { sequence = r.sequence; hash = r.hash }

unfoldable pub manifest_state : ProfileTables → Option ManifestState
manifest_state s = map_option state_of (newest s.manifest)

unfoldable pub latest_manifest : ProfileTables → Option Bytes
latest_manifest s = map_option (λ r. r.signed) (newest s.manifest)

abbrev pub is_revoked_peer : Bytes → PeerRow → Bool
is_revoked_peer device r = bytes_eq r.device_id device && r.revoked == 1

abbrev pub is_revoked_own : Bytes → OwnDeviceRow → Bool
is_revoked_own device r = bytes_eq r.device_id device && r.revoked == 1

unfoldable pub device_revoked : Bytes → ProfileTables → Bool
device_revoked device_id s = ltb 0 (
    count_where (is_revoked_peer device_id) s.peers
    + count_where (is_revoked_own device_id) s.identity_devices)

abbrev pub holds_valid : Bytes → PeerRow → Bool
holds_valid hash r = bytes_eq r.credential_hash hash && r.revoked == 0

abbrev pub revoke_peer : PeerRow → PeerRow
revoke_peer r = record r { revoked = 1 }

abbrev pub revoke_own : OwnDeviceRow → OwnDeviceRow
revoke_own r = record r { revoked = 1 }

-- One round of the loop of `peers_mark_revoked`.
abbrev pub mark_one : Bytes → ProfileTables → ProfileTables
mark_one h s = record s {
  peers = update_where (holds_valid h) revoke_peer s.peers;
  identity_devices = update_where (λ r. bytes_eq r.credential_hash h) revoke_own s.identity_devices;
}

unfoldable pub peers_mark_revoked : List Bytes → ProfileTables → ℕ × ProfileTables
peers_mark_revoked [] s = (0, s)
peers_mark_revoked (h ∷ hashes) s =
    let rest = peers_mark_revoked hashes (mark_one h s) in
    (count_where (holds_valid h) s.peers + rest.0, rest.1)

-- `known.map(|k| k.sequence) != Some(state.sequence)`
abbrev pub is_new : Option ManifestState → ManifestState → Bool
is_new none state = true
is_new (some k) state = not (k.sequence == state.sequence)

abbrev pub has_sequence : Bytes → ℕ → ManifestRow → Bool
has_sequence owner sequence r = bytes_eq r.identity_id owner && r.sequence == sequence

-- `INSERT INTO manifest`
unfoldable pub insert_manifest :
    ManifestRow → List ManifestRow → Result ClientError (List ManifestRow)
insert_manifest r s =
    if any (has_sequence r.identity_id r.sequence) s
    then err (sqlite constraint)
    else ok (s ++ r ∷ [])

abbrev pub accepted_row : Bytes → DeviceManifest → ManifestState → ManifestRow
accepted_row signed body state = record {
  identity_id = body.identity_id;
  sequence = state.sequence;
  signed = signed;
  hash = state.hash;
}

unfoldable pub inserted :
    DeviceManifest
    → Result ClientError (List ManifestRow)
    → ProfileTables
    → Result ClientError (DeviceManifest × Bool) × ProfileTables
inserted body (err e) s = (err e, s)
inserted body (ok rows) s = (
  ok (body, true),
  (peers_mark_revoked body.revoked_credential_hashes (record s { manifest = rows })).1,
)

module _ (p : Platform) (manifests : Serde p.cbor DeviceManifest) where
  -- What follows the acceptance in `manifest_accept_own`.
  unfoldable pub store_own :
      Bytes
      → Option ManifestState
      → Result IdentityError (DeviceManifest × ManifestState)
      → ProfileTables
      → Result ClientError (DeviceManifest × Bool) × ProfileTables
  store_own signed known (err e) s = (err (identity e), s)
  store_own signed known (ok (body, state)) s =
      if is_new known state
      then inserted body (insert_manifest (accepted_row signed body state) s.manifest) s
      else (ok (body, false), (peers_mark_revoked body.revoked_credential_hashes s).1)

  -- `root` is the key that the profile stores.
  unfoldable pub manifest_accept_own :
      Option p.VerifyingKey
      → Bytes
      → ProfileTables
      → Result ClientError (DeviceManifest × Bool) × ProfileTables
  manifest_accept_own none signed s = (err no_identity, s)
  manifest_accept_own (some root) signed s =
      store_own signed (manifest_state s)
        (accept_manifest p manifests signed root (manifest_state s)) s

  -- Body of the newest manifest that is stored.
  unfoldable pub latest_body :
      Option p.VerifyingKey → Option Bytes → Result ClientError (Option DeviceManifest)
  latest_body root none = ok none
  latest_body root (some signed) = do
    key ← ok_or root no_identity
    accepted ← map_err identity (accept_manifest p manifests signed key none)
    ok (some accepted.0)

  unfoldable pub latest_manifest_body :
      Option p.VerifyingKey → ProfileTables → Result ClientError (Option DeviceManifest)
  latest_manifest_body root s = latest_body root (latest_manifest s)

-- Devices that a manifest adds to and takes from the active set.
pub record DeviceChange : Type 0 where
  pub added : ℕ
  pub removed : ℕ

unfoldable pub is_empty_change : DeviceChange → Bool
is_empty_change c = c.added == 0 && c.removed == 0

-- `a.difference(&b).count() as u32`, over sets of hashes.
unfoldable pub count_difference : List Bytes → List Bytes → ℕ
count_difference [] b = 0
count_difference (h ∷ a) b =
    let rest = count_difference a b in
    if any (λ x. bytes_eq x h) a || any (λ x. bytes_eq x h) b then rest else rest + 1

unfoldable pub device_change : List Bytes → Option (List Bytes) → DeviceChange
device_change active none = record { added = 0; removed = 0 }
device_change active (some previous) = record {
  added = count_difference active previous % 2 ^ 32;
  removed = count_difference previous active % 2 ^ 32;
}

-- `INSERT … ON CONFLICT(identity_id) DO UPDATE`
abbrev pub replaced : PeerManifestRow → PeerManifestRow → PeerManifestRow
replaced new r = record r { sequence = new.sequence; hash = new.hash; active = new.active }

unfoldable pub put_peer_manifest : PeerManifestRow → List PeerManifestRow → List PeerManifestRow
put_peer_manifest r s =
    if any (at by_peer r.identity_id) s
    then update_where (at by_peer r.identity_id) (replaced r) s
    else s ++ r ∷ []

abbrev pub peer_state_of : PeerManifestRow → ManifestState
peer_state_of r = record { sequence = r.sequence; hash = r.hash }

unfoldable pub peer_manifest_state : Bytes → ProfileTables → Option ManifestState
peer_manifest_state peer s = map_option peer_state_of (row_at by_peer peer s.peer_manifests)

abbrev pub active_column : Option PeerManifestRow → Option Bytes
active_column none = none
active_column (some r) = r.active

-- `.ok()`
abbrev pub ok_of {ℓ} : {E A : Type ℓ} → Result E A → Option A
ok_of (ok a) = some a
ok_of (err e) = none

module _ (p : Platform) (manifests : Serde p.cbor DeviceManifest)
    (hashes : Serde p.cbor (List Bytes)) (write_hashes : List Bytes → Bytes) where
  unfoldable pub previous_active : Option Bytes → Option (List Bytes)
  previous_active none = none
  previous_active (some bytes) = ok_of (hashes.from_reader bytes)

  unfoldable pub root_of : Option PeerRow → Result ClientError p.VerifyingKey
  root_of none = err unknown_identity
  root_of (some r) =
      if length r.root_public == 32
      then ok_or (p.key_from_bytes r.root_public) unknown_identity
      else err unknown_identity

  abbrev pub peer_row : Bytes → DeviceManifest → ManifestState → PeerManifestRow
  peer_row peer body state = record {
    identity_id = peer;
    sequence = state.sequence;
    hash = state.hash;
    active = some (write_hashes body.active_credential_hashes);
  }

  -- What follows the acceptance in `peer_manifest_accept`.
  unfoldable pub store_peer :
      Bytes
      → Option ManifestState
      → Result IdentityError (DeviceManifest × ManifestState)
      → ProfileTables
      → Result ClientError (DeviceManifest × Bool × DeviceChange) × ProfileTables
  store_peer peer known (err e) s = (err (identity e), s)
  store_peer peer known (ok (body, state)) s =
      if is_new known state
      then (
        ok (
          body,
          true,
          device_change body.active_credential_hashes
              (previous_active (active_column (row_at by_peer peer s.peer_manifests))),
        ),
        (peers_mark_revoked body.revoked_credential_hashes (record s {
          peer_manifests = put_peer_manifest (peer_row peer body state) s.peer_manifests;
        })).1,
      )
      else (
        ok (body, false, record { added = 0; removed = 0 }),
        (peers_mark_revoked body.revoked_credential_hashes s).1,
      )

  unfoldable pub with_root :
      Bytes
      → Bytes
      → Result ClientError p.VerifyingKey
      → ProfileTables
      → Result ClientError (DeviceManifest × Bool × DeviceChange) × ProfileTables
  with_root peer signed (err e) s = (err e, s)
  with_root peer signed (ok root) s =
      store_peer peer (peer_manifest_state peer s)
        (accept_manifest p manifests signed root (peer_manifest_state peer s)) s

  unfoldable pub peer_manifest_accept :
      Bytes
      → Bytes
      → ProfileTables
      → Result ClientError (DeviceManifest × Bool × DeviceChange) × ProfileTables
  peer_manifest_accept peer signed s =
      with_root peer signed (root_of (first_where (λ r. bytes_eq r.peer_identity peer) s.peers)) s
