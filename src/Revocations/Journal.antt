-- ===== src/Revocations/Journal.antt =====
-- What the journal of core/crates/arveil-core/src/device_store.rs keeps.
use arveil.Base.{
  ℕ, ◌+◌, ◌≡◌, refl, ap, sym, ◌∙◌, true, false, List, [], ◌∷◌, ◌++◌, Bytes, bytes_eq, any,
  if◌then◌else◌, Bool-cases, inl, inr, arith, ok, err,
}
use arveil.Sql.{constraint, update_where, any-update_where, any-append}
use arveil.Sql.Tables.{is_some, at, row_at, any-at, IsKeyed, update_where-IsKeyed, append-IsKeyed}
use arveil.Revocations.{
  GroupRow, JournalTables, by_group, both_eq, both_eq_iff, counted, sum_for,
  revocation_group_queued, revocation_group_record, revocation_without_route, by_revocation,
}

sum_for-append :
    (device : Bytes) (q : GroupRow) (s : List GroupRow)
    → sum_for device (s ++ q ∷ [])
      ≡ sum_for device s + (if bytes_eq q.device_id device then q.without_route else 0)
sum_for-append device q [] = ground arith
sum_for-append device q (r ∷ s) = ground (arith, sum_for-append device q s)

-- An update where no row has the key changes nothing.
sum_for-absent :
    (device : Bytes) (k : Bytes × Bytes) (n : ℕ) (s : List GroupRow)
    → any (at by_group k) s ≡ false
    → sum_for device
        (update_where (at by_group k) (λ r. record r { without_route = r.without_route + n }) s)
      ≡ sum_for device s
sum_for-absent device k n [] h = refl
sum_for-absent device k n (r ∷ s) h = ground (arith, h, sum_for-absent device k n s)

sum_for-update :
    (device of group : Bytes) (n : ℕ) (s : List GroupRow)
    → IsKeyed by_group s
    → any (at by_group (of, group)) s ≡ true
    → sum_for device (
        update_where
          (at by_group (of, group))
          (λ r. record r { without_route = r.without_route + n })
          s)
      ≡ sum_for device s + (if bytes_eq of device then n else 0)
sum_for-update device of group n [] w h = absurd (ground (arith, h))
sum_for-update device of group n (r ∷ s) w h =
    elim (Bool-cases (both_eq (r.device_id, r.group_id) (of, group))) [
      | inl e ↦
          let key = (both_eq_iff (r.device_id, r.group_id) (of, group)).0 e in
          let gone =
            sum_for-absent device (of, group) n s
              (sym (ap (λ k. any (at by_group k) s) key) ∙ w.0) in
          let same : bytes_eq r.device_id device ≡ bytes_eq of device =
            ap (λ k. bytes_eq k.0 device) key in
          rw e (ground (arith, gone, same))
      | inr e ↦ rw e (ground (arith, h, e, sum_for-update device of group n s w.1))
    ]

counted-sum :
    (device of group : Bytes) (n : ℕ) (s : List GroupRow)
    → IsKeyed by_group s
    → sum_for device (counted of group n s)
      ≡ sum_for device s + (if bytes_eq of device then n else 0)
unfolding counted
counted-sum device of group n s w = elim (Bool-cases (any (at by_group (of, group)) s)) [
  | inl e ↦ rw e (sum_for-update device of group n s w e)
  | inr e ↦
      rw e
        (sum_for-append device (record { device_id = of; group_id = group; without_route = n }) s)
]

counted-IsKeyed :
    (of group : Bytes) (n : ℕ) (s : List GroupRow)
    → IsKeyed by_group s
    → IsKeyed by_group (counted of group n s)
unfolding counted
counted-IsKeyed of group n s w = elim (Bool-cases (any (at by_group (of, group)) s)) [
  | inl e ↦ rw e (
      update_where-IsKeyed by_group (at by_group (of, group))
        (λ r. record r { without_route = r.without_route + n }) (λ r. refl) s w)
  | inr e ↦ rw e (
      append-IsKeyed by_group (record { device_id = of; group_id = group; without_route = n }) s e
        w)
]

counted-there :
    (of group : Bytes) (n : ℕ) (s : List GroupRow)
    → is_some (row_at by_group (of, group) (counted of group n s)) ≡ true
unfolding counted
counted-there of group n s =
    let k : Bytes × Bytes = (of, group) in
    let q : GroupRow = record { device_id = of; group_id = group; without_route = n } in
    elim (Bool-cases (any (at by_group k) s)) [
      | inl e ↦
          let f : GroupRow → GroupRow = λ r. record r { without_route = r.without_route + n } in
          rw e (
            sym (any-at by_group k (update_where (at by_group k) f s))
            ∙ any-update_where (at by_group k) (at by_group k) f s (λ r. refl)
            ∙ e)
      | inr e ↦
          let self : both_eq k k ≡ true = (both_eq_iff k k).1 refl in
          rw e (
            sym (any-at by_group k (s ++ q ∷ []))
            ∙ any-append (at by_group k) s (q ∷ [])
            ∙ ground (arith, e, self))
    ]

-- A group is recorded for a device exactly if its revocation was started; otherwise it is an error
-- that changes nothing. A recorded group counts as queued, the devices without a route add up for
-- the device that was revoked and stay for every other one, and there is still one row for each
-- device and group.
pub revocation_group_record_lem :
    (device of group : Bytes) (n : ℕ) (s : JournalTables)
    → IsKeyed by_group s.groups
    → (any (at by_revocation of) s.revoked_devices ≡ false
        → revocation_group_record of group n s ≡ (err constraint, s))
      × (any (at by_revocation of) s.revoked_devices ≡ true
          → ((revocation_group_record of group n s).0 ≡ ok tt)
            × (revocation_group_queued of group (revocation_group_record of group n s).1 ≡ true)
            × (revocation_without_route device (revocation_group_record of group n s).1
                ≡ revocation_without_route device s + (if bytes_eq of device then n else 0))
            × IsKeyed by_group (revocation_group_record of group n s).1.groups)
unfolding revocation_group_record revocation_group_queued revocation_without_route
revocation_group_record_lem device of group n s w = (
  λ e. rw e refl,
  λ e. rw e (
    refl,
    counted-there of group n s.groups,
    counted-sum device of group n s.groups w,
    counted-IsKeyed of group n s.groups w,
  ),
)
