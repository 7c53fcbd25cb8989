-- ===== src/Revocations.antt =====
-- The journal of revocations, of core/crates/arveil-core/src/device_store.rs. Its tables refer to each
-- other, and the connection checks that. Sums of without_route fit their types.
pub mod Journal
mod Tests
use arveil.Base.{
  ℕ, ◌+◌, ◌≡◌, ◌↔◌, Bool, true, false, not, ◌&&◌, ◌||◌, List, [], ◌∷◌, ◌++◌, map, Option, none,
  some, Bytes, bytes_eq, bytes_eq_iff, any, ◌==◌, if◌then◌else◌, Result, ok, err, arith,
}
use arveil.Sql.{SqlError, constraint, update_where}
use arveil.Sql.Tables.{Keyed, by_blob, is_some, at, row_at}

-- A row of `device_revocations`.
pub record RevocationRow : Type 0 where
  pub device_id : Bytes
  pub notification_id : Bytes
  pub relay_published : ℕ

-- A row of `revocation_groups`.
pub record GroupRow : Type 0 where
  pub device_id : Bytes
  pub group_id : Bytes
  pub without_route : ℕ

pub record JournalTables : Type 0 where
  pub revoked_devices : List RevocationRow
  pub groups : List GroupRow

pub record Revocation : Type 0 where
  pub device_id : Bytes
  pub notification_id : Bytes
  pub relay_published : Bool

abbrev pub by_revocation : Keyed Bytes RevocationRow
by_revocation = by_blob (λ r. r.device_id)

-- `PRIMARY KEY (device_id, group_id)`
abbrev pub both_eq : Bytes × Bytes → Bytes × Bytes → Bool
both_eq a b = bytes_eq a.0 b.0 && bytes_eq a.1 b.1

pub both_eq_iff : (a b : Bytes × Bytes) → (both_eq a b ≡ true) ↔ (a ≡ b)
both_eq_iff (d, g) (e, h) = ground (arith, bytes_eq_iff d e, bytes_eq_iff g h)

abbrev pub by_group : Keyed (Bytes × Bytes) GroupRow
by_group = record { key = λ r. (r.device_id, r.group_id); same = both_eq; same_iff = both_eq_iff }

-- `INSERT OR IGNORE`: both columns are unique.
abbrev pub clashes : Bytes → Bytes → RevocationRow → Bool
clashes device marker r = bytes_eq r.device_id device || bytes_eq r.notification_id marker

unfoldable pub revocation_start : Bytes → Bytes → JournalTables → JournalTables
revocation_start device marker s = record s {
  revoked_devices =
      if any (clashes device marker) s.revoked_devices
      then s.revoked_devices
      else s.revoked_devices
        ++ record { device_id = device; notification_id = marker; relay_published = 0 } ∷ [];
}

unfoldable pub revocations : JournalTables → List Revocation
revocations s =
    map
      (λ r. record {
        device_id = r.device_id;
        notification_id = r.notification_id;
        relay_published = not (r.relay_published == 0);
      })
      s.revoked_devices

unfoldable pub revocation_published : Bytes → JournalTables → JournalTables
revocation_published device s = record s {
  revoked_devices =
      update_where (at by_revocation device) (λ r. record r { relay_published = 1 })
        s.revoked_devices;
}

unfoldable pub revocation_group_queued : Bytes → Bytes → JournalTables → Bool
revocation_group_queued device group s = is_some (row_at by_group (device, group) s.groups)

-- `ON CONFLICT(device_id, group_id) DO UPDATE`
unfoldable pub counted : Bytes → Bytes → ℕ → List GroupRow → List GroupRow
counted device group without_route s =
    if any (at by_group (device, group)) s
    then update_where (at by_group (device, group))
        (λ r. record r { without_route = r.without_route + without_route }) s
    else s ++ record { device_id = device; group_id = group; without_route = without_route } ∷ []

unfoldable pub revocation_group_record :
    Bytes → Bytes → ℕ → JournalTables → Result SqlError (Unit {0}) × JournalTables
revocation_group_record device group without_route s =
    if any (at by_revocation device) s.revoked_devices
    then (ok tt, record s { groups = counted device group without_route s.groups })
    else (err constraint, s)

-- `COALESCE(SUM(without_route), 0)`
abbrev pub sum_for : Bytes → List GroupRow → ℕ
sum_for device [] = 0
sum_for device (r ∷ s) =
    let rest = sum_for device s in
    if bytes_eq r.device_id device then r.without_route + rest else rest

unfoldable pub revocation_without_route : Bytes → JournalTables → ℕ
revocation_without_route device s = sum_for device s.groups
