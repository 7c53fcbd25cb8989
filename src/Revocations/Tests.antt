-- ===== src/Revocations/Tests.antt =====
-- Runs of the journal of revocations, and the theorem at a concrete journal.
use arveil.Base.{◌+◌, ◌≡◌, refl, true, false, [], ◌∷◌, Bytes, bytes_eq, if◌then◌else◌, ok}
use arveil.Sql.Tables.{IsKeyed}
use arveil.Revocations.{
  JournalTables, Revocation, by_group, revocation_start, revocations, revocation_published,
  revocation_group_record, revocation_group_queued, revocation_without_route,
}
use arveil.Revocations.Journal.{revocation_group_record_lem}

abbrev phone : Bytes
phone = 1 ∷ []

abbrev friends : Bytes
friends = 2 ∷ []

abbrev started : JournalTables
started = revocation_start phone (9 ∷ []) (record { revoked_devices = []; groups = [] })

abbrev recorded : JournalTables
recorded = (revocation_group_record phone friends 2 started).1

a_retry_keeps_the_marker :
    revocations (revocation_start phone (8 ∷ []) (revocation_published phone started))
    ≡ record { device_id = phone; notification_id = 9 ∷ []; relay_published = true } ∷ []
unfolding revocations revocation_start revocation_published bytes_eq
a_retry_keeps_the_marker = refl

a_group_needs_a_revocation :
    revocation_group_queued (7 ∷ []) friends (revocation_group_record (7 ∷ []) friends 2 started).1
    ≡ false
unfolding revocation_group_queued revocation_group_record revocation_start bytes_eq
a_group_needs_a_revocation = refl

recorded-IsKeyed : IsKeyed by_group recorded.groups
unfolding revocation_group_record revocation_start arveil.Revocations.counted bytes_eq
recorded-IsKeyed = (refl, tt)

revocation_group_record_lem_example :
    ((revocation_group_record phone friends 3 recorded).0 ≡ ok tt)
    × (revocation_group_queued phone friends (revocation_group_record phone friends 3 recorded).1
        ≡ true)
    × (revocation_without_route phone (revocation_group_record phone friends 3 recorded).1
        ≡ revocation_without_route phone recorded + (if bytes_eq phone phone then 3 else 0))
    × IsKeyed by_group (revocation_group_record phone friends 3 recorded).1.groups
unfolding revocation_group_record revocation_start bytes_eq
revocation_group_record_lem_example =
    (revocation_group_record_lem phone phone friends 3 recorded recorded-IsKeyed).1 refl
