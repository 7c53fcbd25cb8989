-- ===== src/Packages.antt =====
-- The key packages that a device publishes, of core/crates/arveil-core/src/client.rs. mls-rs, which
-- makes a package and keeps its private keys, and ciborium, which writes a batch, are parameters.
-- A unit of work that fails leaves the state as it was, the private keys included.
pub mod Batches
pub mod Initial
mod Tests
use arveil.Base.{
  ℕ, zero, suc, ◌+◌, ◌-◌, ◌≡◌, Bool, true, false, not, ◌&&◌, String, List, [], ◌∷◌, ◌++◌, Option,
  none, some, Bytes, bytes_eq, any, leb, ltb, ◌==◌, if◌then◌else◌, Result, ok, err,
}
use arveil.Sql.{update_where, count_where}
use arveil.Sql.Tables.{Keyed, by_blob, map_option, at, row_at, delete_where}
use arveil.Client.{ClientError, mls, key_package_publication}

abbrev pub key_package_floor : ℕ
key_package_floor = 3

abbrev pub key_package_target : ℕ
key_package_target = 10

-- The engine, over the state that it keeps, and the text of a batch.
pub record MlsEngine : Type 1 where
  pub Keys : Type 0
  pub key_package : Keys → Result String Bytes × Keys
  pub write_batch : List Bytes → Result String Bytes
  pub read_batch : Bytes → Result String (List Bytes)

-- A batch that was written reads back.
pub record MlsEngineLaws (e : MlsEngine) : Type 0 where
  pub reads_batch :
      (packages : List Bytes) (bytes : Bytes)
      → e.write_batch packages ≡ ok bytes
      → e.read_batch bytes ≡ ok packages

pub record PendingKeyPackages : Type 0 where
  pub packages : List Bytes
  pub previous : ℕ

pub record KeyPackageObservation : Type 0 where
  pub available : ℕ
  pub checked_at : ℕ

-- Rows of `key_package_replenishment`, of `initial_key_package_publication` and of
-- `key_package_observation`.
pub record ReplenishmentRow : Type 0 where
  pub device_id : Bytes
  pub batch : Bytes
  pub previous : ℕ

pub record PublicationRow : Type 0 where
  pub device_id : Bytes
  pub batch : Option Bytes

pub record ObservationRow : Type 0 where
  pub device_id : Bytes
  pub available : ℕ
  pub checked_at : ℕ

abbrev pub by_device : Keyed Bytes ReplenishmentRow
by_device = by_blob (λ r. r.device_id)

abbrev pub by_publication : Keyed Bytes PublicationRow
by_publication = by_blob (λ r. r.device_id)

abbrev pub by_observation : Keyed Bytes ObservationRow
by_observation = by_blob (λ r. r.device_id)

unfoldable pub key_package_observation : Bytes → List ObservationRow → Option KeyPackageObservation
key_package_observation device_id s =
    map_option (λ r. record { available = r.available; checked_at = r.checked_at })
      (row_at by_observation device_id s)

-- `INSERT … ON CONFLICT(device_id) DO UPDATE`
unfoldable pub key_package_observe : Bytes → ℕ → ℕ → List ObservationRow → List ObservationRow
key_package_observe device_id available checked_at s =
    if any (at by_observation device_id) s
    then update_where (at by_observation device_id)
        (λ r. record r { available = available; checked_at = checked_at }) s
    else s ++ record { device_id = device_id; available = available; checked_at = checked_at } ∷ []

module _ (e : MlsEngine) where
  pub record PackageState : Type 0 where
    pub replenishment : List ReplenishmentRow
    pub initial : List PublicationRow
    pub keys : e.Keys

  abbrev pub read_pending :
      ℕ → Result String (List Bytes) → Result ClientError (Option PendingKeyPackages)
  read_pending previous (err text) = err (key_package_publication text)
  read_pending previous (ok packages) =
      ok (some (record { packages = packages; previous = previous }))

  unfoldable pub pending_of :
      Option ReplenishmentRow → Result ClientError (Option PendingKeyPackages)
  pending_of none = ok none
  pending_of (some r) = read_pending r.previous (e.read_batch r.batch)

  unfoldable pub pending_key_packages :
      Bytes → PackageState → Result ClientError (Option PendingKeyPackages)
  pending_key_packages device_id s = pending_of (row_at by_device device_id s.replenishment)

  -- The loop that makes `n` packages.
  abbrev pub push_package :
      Bytes → Result ClientError (List Bytes) × e.Keys → Result ClientError (List Bytes) × e.Keys
  push_package p (err x, keys) = (err x, keys)
  push_package p (ok packages, keys) = (ok (p ∷ packages), keys)

  abbrev pub made :
      Result String Bytes × e.Keys
      → (e.Keys → Result ClientError (List Bytes) × e.Keys)
      → Result ClientError (List Bytes) × e.Keys
  made (err text, keys) more = (err (mls text), keys)
  made (ok p, keys) more = push_package p (more keys)

  unfoldable pub make_packages : ℕ → e.Keys → Result ClientError (List Bytes) × e.Keys
  make_packages zero keys = (ok [], keys)
  make_packages (suc n) keys = made (e.key_package keys) (make_packages n)

  -- The written batch with its row, or the error that undoes the unit of work.
  abbrev pub with_batch :
      Bytes
      → ℕ
      → List Bytes
      → e.Keys
      → Result String Bytes
      → PackageState
      → Result ClientError (Option PendingKeyPackages) × PackageState
  with_batch device available packages keys (err text) s = (err (key_package_publication text), s)
  with_batch device available packages keys (ok bytes) s = (
    ok (some (record { packages = packages; previous = available })),
    record s {
      replenishment =
          s.replenishment
          ++ record { device_id = device; batch = bytes; previous = available } ∷ [];
      keys = keys;
    },
  )

  unfoldable pub store_batch :
      Bytes
      → ℕ
      → Result ClientError (List Bytes) × e.Keys
      → PackageState
      → Result ClientError (Option PendingKeyPackages) × PackageState
  store_batch device available (err x, keys) s = (err x, s)
  store_batch device available (ok packages, keys) s =
      with_batch device available packages keys (e.write_batch packages) s

  unfoldable pub prepared :
      Bytes
      → ℕ
      → Result ClientError (Option PendingKeyPackages)
      → PackageState
      → Result ClientError (Option PendingKeyPackages) × PackageState
  prepared device available (err x) s = (err x, s)
  prepared device available (ok (some pending)) s = (ok (some pending), s)
  prepared device available (ok none) s =
      if ltb key_package_floor available
      then (ok none, s)
      else store_batch device available (make_packages (key_package_target - available) s.keys) s

  unfoldable pub prepare_key_package_replenishment :
      Bytes → ℕ → PackageState → Result ClientError (Option PendingKeyPackages) × PackageState
  prepare_key_package_replenishment device_id available s =
      prepared device_id available (pending_key_packages device_id s) s

  unfoldable pub key_package_replenishment_acknowledged : Bytes → PackageState → PackageState
  key_package_replenishment_acknowledged device_id s = record s {
    replenishment = delete_where (at by_device device_id) s.replenishment;
  }

  abbrev pub initial_batch :
      Bytes
      → List Bytes
      → e.Keys
      → Result String Bytes
      → PackageState
      → Result ClientError (Option (List Bytes)) × PackageState
  initial_batch device packages keys (err text) s = (err (key_package_publication text), s)
  initial_batch device packages keys (ok bytes) s = (
    ok (some packages),
    record s {
      initial = s.initial ++ record { device_id = device; batch = some bytes } ∷ [];
      keys = keys;
    },
  )

  unfoldable pub store_initial :
      Bytes
      → Result ClientError (List Bytes) × e.Keys
      → PackageState
      → Result ClientError (Option (List Bytes)) × PackageState
  store_initial device (err x, keys) s = (err x, s)
  store_initial device (ok packages, keys) s =
      initial_batch device packages keys (e.write_batch packages) s

  abbrev pub read_initial : Result String (List Bytes) → Result ClientError (Option (List Bytes))
  read_initial (err text) = err (key_package_publication text)
  read_initial (ok packages) = ok (some packages)

  -- `batch.map(…).transpose()`
  unfoldable pub stored_initial : Option Bytes → Result ClientError (Option (List Bytes))
  stored_initial none = ok none
  stored_initial (some bytes) = read_initial (e.read_batch bytes)

  unfoldable pub initial_of :
      Bytes
      → Bool
      → Option PublicationRow
      → PackageState
      → Result ClientError (Option (List Bytes)) × PackageState
  initial_of device complete (some r) s = (stored_initial r.batch, s)
  initial_of device complete none s =
      if complete
      then (
        ok none,
        record s { initial = s.initial ++ record { device_id = device; batch = none } ∷ [] },
      )
      else store_initial device (make_packages 5 s.keys) s

  -- `complete`: the stored enrollment has reached its last phase.
  unfoldable pub initial_key_packages :
      Bytes → Bool → PackageState → Result ClientError (Option (List Bytes)) × PackageState
  initial_key_packages device complete s =
      initial_of device complete (row_at by_publication device s.initial) s

  unfoldable pub initial_key_packages_acknowledged :
      Bytes → PackageState → Result ClientError (Unit {0}) × PackageState
  initial_key_packages_acknowledged device_id s = (
    if count_where (at by_publication device_id) s.initial == 1
        then ok tt
        else err (key_package_publication "no prepared batch"),
    record s {
      initial =
          update_where (at by_publication device_id) (λ r. record r { batch = none }) s.initial;
    },
  )
