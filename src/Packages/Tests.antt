-- ===== src/Packages/Tests.antt =====
-- Runs of the key packages, and the theorems at concrete inputs.
use arveil.Base.{
  ℕ, ◌+◌, ◌≡◌, refl, Bool, true, false, List, [], ◌∷◌, Option, none, some, Bytes, length, Result,
  Result-cases, ap, sym, ◌∙◌, inl, inr, ok, err, arith, String,
}
use arveil.Packages.{
  MlsEngine, MlsEngineLaws, PendingKeyPackages, PackageState, key_package_target,
  pending_key_packages, prepare_key_package_replenishment, key_package_observation,
  key_package_observe, initial_key_packages, initial_key_packages_acknowledged,
}
use arveil.Packages.Batches.{prepare_lem}
use arveil.Packages.Initial.{initial_key_packages_once}

-- An engine that numbers its packages; a batch of packages of one byte is those bytes.
abbrev put_byte : ℕ → Result String Bytes → Result String Bytes
put_byte x (ok b) = ok (x ∷ b)
put_byte x (err t) = err t

abbrev flat : List Bytes → Result String Bytes
flat [] = ok []
flat ((x ∷ []) ∷ l) = put_byte x (flat l)
flat _ = err "batch"

abbrev split : Bytes → List Bytes
split [] = []
split (x ∷ b) = (x ∷ []) ∷ split b

abbrev engine : MlsEngine
engine = record {
  Keys = ℕ;
  key_package = λ n. (ok (n ∷ []), n + 1);
  write_batch = flat;
  read_batch = λ b. ok (split b);
}

split-flat : (l : List Bytes) (b : Bytes) → flat l ≡ ok b → split b ≡ l
split-flat [] b h = ground (arith, h)
split-flat ((x ∷ []) ∷ l) b h = elim (Result-cases (flat l)) [
  | inl (c, e) ↦
      let same : x ∷ c ≡ b = ground (arith, h, e) in
      ap split (sym same) ∙ ap (◌∷◌ (x ∷ [])) (split-flat l c e)
  | inr (t, e) ↦ ground (arith, h, e)
]
split-flat ([] ∷ l) b h = ground (arith, h)
split-flat ((x ∷ y ∷ p) ∷ l) b h = ground (arith, h)

engine-laws : MlsEngineLaws engine
engine-laws = record { reads_batch = λ packages bytes e. ap ok (split-flat packages bytes e) }

abbrev device : Bytes
device = 1 ∷ []

abbrev new_profile : PackageState engine
new_profile = record { replenishment = []; initial = []; keys = 20 }

abbrev seven_missing : PendingKeyPackages
seven_missing = record {
  packages = (20 ∷ []) ∷ (21 ∷ []) ∷ (22 ∷ []) ∷ (23 ∷ []) ∷ (24 ∷ []) ∷ (25 ∷ []) ∷ (26 ∷ []) ∷ [];
  previous = 3;
}

prepares :
    (prepare_key_package_replenishment engine device 3 new_profile).0 ≡ ok (some seven_missing)
unfolding prepare_key_package_replenishment arveil.Packages.prepared pending_key_packages
    arveil.Packages.pending_of arveil.Packages.store_batch arveil.Packages.make_packages
prepares = refl

prepare_lem_example :
    prepare_key_package_replenishment engine device 9
      (prepare_key_package_replenishment engine device 3 new_profile).1
    ≡ (ok (some seven_missing), (prepare_key_package_replenishment engine device 3 new_profile).1)
unfolding pending_key_packages arveil.Packages.pending_of
prepare_lem_example =
    ((prepare_lem engine engine-laws device 3 new_profile 9 refl).1 seven_missing prepares).2

a_report_replaces_the_last :
    key_package_observation device
      (key_package_observe device 4 9 (key_package_observe device 7 5 []))
    ≡ some (record { available = 4; checked_at = 9 })
unfolding key_package_observation key_package_observe arveil.Base.bytes_eq
a_report_replaces_the_last = refl

initial_packages :
    (initial_key_packages engine device false new_profile).0
    ≡ ok (some ((20 ∷ []) ∷ (21 ∷ []) ∷ (22 ∷ []) ∷ (23 ∷ []) ∷ (24 ∷ []) ∷ []))
unfolding initial_key_packages arveil.Packages.initial_of arveil.Packages.store_initial
    arveil.Packages.make_packages
initial_packages = refl

initial_key_packages_once_example :
    initial_key_packages engine device true (initial_key_packages engine device false new_profile).1
    ≡ (
      ok (some ((20 ∷ []) ∷ (21 ∷ []) ∷ (22 ∷ []) ∷ (23 ∷ []) ∷ (24 ∷ []) ∷ [])),
      (initial_key_packages engine device false new_profile).1,
    )
initial_key_packages_once_example =
    (initial_key_packages_once engine device engine-laws false true
        ((20 ∷ []) ∷ (21 ∷ []) ∷ (22 ∷ []) ∷ (23 ∷ []) ∷ (24 ∷ []) ∷ []) new_profile).0
      initial_packages
