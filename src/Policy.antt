-- ===== src/Policy.antt =====
-- core/crates/arveil-core/src/mls/policy.rs: who may commit in a group. The crate mls-rs stands
-- outside: its proposals and the rules below these are the fields of an interface.
pub mod Committers
mod Tests
use arveil.Base.{
  ℕ, ◌+◌, Bool, true, false, not, String, List, [], ◌∷◌, Bytes, bytes_eq, any, ltb, ◌==◌,
  if◌then◌else◌, Option, none, some, Result, ok, err, ◌>>=◌, ◌>>◌, map_err, ok_or, refuse_if,
}
use arveil.Sql.{count_where, select}

pub record GroupPolicy : Type 0 where
  pub version : ℕ
  pub creator_leaf : ℕ

abbrev pub version : ℕ
version = 2

abbrev pub lowest_active_leaf : ℕ → GroupPolicy
lowest_active_leaf creator_leaf = record { version = version; creator_leaf = creator_leaf }

-- A member of the roster, with the identifier of its credential where that is a basic one.
pub record Member : Type 0 where
  pub index : ℕ
  pub identifier : Option Bytes

pub data CommitSource : Type 0 where
  existing_member : Member → CommitSource
  new_member : CommitSource

-- mls-rs: the directions, the proposals, which leaves they remove, the extension of the context
-- as it reads, and the rules that do not fail.
pub record Mls : Type 1 where
  pub Direction : Type 0
  pub GroupContext : Type 0
  pub ProposalBundle : Type 0
  pub get_policy : GroupContext → Result String (Option GroupPolicy)
  pub to_remove : ProposalBundle → List ℕ
  pub inner_filter :
      Direction → CommitSource → List Member → GroupContext → ProposalBundle → ProposalBundle

pub data PolicyError (Direction : Type 0) : Type 0 where
  missing_policy external_commit : PolicyError Direction
  unsupported_version : ℕ → PolicyError Direction
  unauthorized_committer revoked_leaf_not_removed : ℕ → ℕ → Direction → PolicyError Direction
  extension : String → PolicyError Direction

-- A row of `peers` or of `identity_devices`, in the columns that are read here.
pub record DeviceRow : Type 0 where
  pub device_id : Bytes
  pub revoked : Bool

pub record Store : Type 0 where
  pub peers : List DeviceRow
  pub identity_devices : List DeviceRow

abbrev pub is_revoked : Bytes → DeviceRow → Bool
is_revoked device r = if bytes_eq r.device_id device then r.revoked else false

-- No store, as in `None`, knows of no revocation.
unfoldable pub revoked : Option Store → Bytes → Bool
revoked none device_id = false
revoked (some s) device_id = ltb 0 (
    count_where (is_revoked device_id) s.peers
    + count_where (is_revoked device_id) s.identity_devices)

abbrev pub device_of : Member → Bytes
device_of m = elim m.identifier [ none ↦ [] | some id ↦ id ]

module _ (mls : Mls) where
  unfoldable pub policy_of : mls.GroupContext → Result (PolicyError mls.Direction) GroupPolicy
  policy_of context = do
    found ← map_err extension (mls.get_policy context)
    policy ← ok_or found missing_policy
    refuse_if (not (policy.version == version)) (unsupported_version policy.version)
    ok policy

  -- The `for` over the members below the committer.
  unfoldable pub check_below :
      Option Store
      → mls.Direction
      → ℕ
      → List ℕ
      → List Member
      → Result (PolicyError mls.Direction) (Unit {0})
  check_below conn direction committer removed [] = ok tt
  check_below conn direction committer removed (member ∷ members) = do
    refuse_if (not (revoked conn (device_of member)))
        (unauthorized_committer committer member.index direction)
    refuse_if (not (any (λ i. i == member.index) removed))
        (revoked_leaf_not_removed committer member.index direction)
    check_below conn direction committer removed members

  abbrev pub committer_of : CommitSource → Result (PolicyError mls.Direction) ℕ
  committer_of (existing_member m) = ok m.index
  committer_of new_member = err external_commit

  unfoldable pub filter_proposals :
      Option Store
      → mls.Direction
      → CommitSource
      → List Member
      → mls.GroupContext
      → mls.ProposalBundle
      → Result (PolicyError mls.Direction) mls.ProposalBundle
  filter_proposals conn direction source current_roster current_context proposals = do
    _ ← policy_of current_context
    committer ← committer_of source
    let below = select (λ m. ltb m.index committer) current_roster
    _ ← check_below conn direction committer (mls.to_remove proposals) below
    ok (mls.inner_filter direction source current_roster current_context proposals)
