-- ===== src/Realm/Enrollment.antt =====
-- The enrollment of core/crates/arveil-core/src/client.rs, and when a rejection releases it.
use arveil.Base.{
  ◌≡◌, ◌↔◌, refl, ap, true, false, str_eq, none, some, Bytes, bytes_eq_iff, any, ◌==◌,
  if◌then◌else◌, Bool-cases, inl, inr, arith,
}
use arveil.Realm.{
  EnrollmentPhase, redeeming, redeemed, endpoints, complete, stored, from_stored,
  EnrollmentProgress, EnrollmentRow, RealmTables, enrollment, enrollment_save, is_rejected,
  rejected, invitation_rejected_enrollment,
}

from_stored-stored : (phase : EnrollmentPhase) → from_stored (stored phase) ≡ phase
unfolding from_stored stored
from_stored-stored redeeming = refl
from_stored-stored redeemed = refl
from_stored-stored endpoints = refl
from_stored-stored complete = refl

stored-redeeming :
    (phase : EnrollmentPhase) → str_eq (stored phase) "redeeming" ≡ true → phase ≡ redeeming
unfolding stored
stored-redeeming redeeming h = refl
stored-redeeming redeemed h = ground (arith, h)
stored-redeeming endpoints h = ground (arith, h)
stored-redeeming complete h = ground (arith, h)

abbrev row_of : EnrollmentProgress → EnrollmentRow
row_of progress = record {
  realm_id = progress.realm_id;
  invite_hash = progress.invite_hash;
  credential_hash = progress.credential_hash;
  phase = stored progress.phase;
}

saved_back :
    (progress : EnrollmentProgress) (s : RealmTables)
    → enrollment (enrollment_save progress s) ≡ some progress
unfolding enrollment enrollment_save
saved_back progress s = rw (from_stored-stored progress.phase) refl

redeeming-stored :
    (phase : EnrollmentPhase) → phase ≡ redeeming → str_eq (stored phase) "redeeming" ≡ true
unfolding stored
redeeming-stored phase h = ap (λ x. str_eq (stored x) "redeeming") h

is_rejected_iff :
    (id : Bytes) (progress : EnrollmentProgress) (s : RealmTables)
    → ((invitation_rejected_enrollment id (enrollment_save progress s)).0 ≡ true) ↔ (
        (progress.invite_hash ≡ id)
        × (progress.phase ≡ redeeming)
        × (any (λ q. q.enrolled == 1) s.realms ≡ false))
unfolding enrollment_save invitation_rejected_enrollment rejected
is_rejected_iff id progress s =
    let same = bytes_eq_iff progress.invite_hash id in
    let early = stored-redeeming progress.phase in
    elim (Bool-cases (is_rejected id s (row_of progress))) [
      | inl r ↦ rw r (
        λ _. (same.0 (ground (arith, r)), early (ground (arith, r)), ground (arith, r)),
        λ _. refl,
      )
      | inr r ↦ rw r (
        λ h. ground (arith, h),
        λ (i, ph, e).
            let at = same.1 i in
            let early = redeeming-stored progress.phase ph in ground (arith, r, at, early, e),
      )
    ]

-- Progress that was saved is read back and touches no realm. A rejection of an invite releases it
-- exactly if it is the enrollment of that invite, the invite is not redeemed and no realm is
-- enrolled: then no enrollment is left and every realm stays, and otherwise nothing at all changes,
-- nor where there is no enrollment.
pub rejection_lem :
    (id : Bytes) (progress : EnrollmentProgress) (s : RealmTables)
    → (enrollment (enrollment_save progress s) ≡ some progress)
      × ((enrollment_save progress s).realms ≡ s.realms)
      × (((invitation_rejected_enrollment id (enrollment_save progress s)).0 ≡ true) ↔ (
          (progress.invite_hash ≡ id)
          × (progress.phase ≡ redeeming)
          × (any (λ q. q.enrolled == 1) s.realms ≡ false)))
      × (enrollment (invitation_rejected_enrollment id (enrollment_save progress s)).1 ≡ (
          if (invitation_rejected_enrollment id (enrollment_save progress s)).0
          then none
          else some progress))
      × ((invitation_rejected_enrollment id (enrollment_save progress s)).1.realms ≡ s.realms)
      × ((invitation_rejected_enrollment id (enrollment_save progress s)).0 ≡ false
          → (invitation_rejected_enrollment id (enrollment_save progress s)).1
            ≡ enrollment_save progress s)
      × (s.enrollment ≡ none → invitation_rejected_enrollment id s ≡ (false, s))
unfolding enrollment enrollment_save invitation_rejected_enrollment rejected
rejection_lem id progress s =
    let saved = saved_back progress s in
    let whole = is_rejected_iff id progress s in
    let nothing : s.enrollment ≡ none → invitation_rejected_enrollment id s ≡ (false, s) =
      λ h. rw h refl in
    elim (Bool-cases (is_rejected id s (row_of progress))) [
      | inl r ↦ (saved, refl, whole, rw r refl, rw r refl, rw r (λ h. ground (arith, h)), nothing)
      | inr r ↦ (saved, refl, whole, rw r saved, rw r refl, rw r (λ h. refl), nothing)
    ]
