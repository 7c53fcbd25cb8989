-- ===== src/Outbox/Tests.antt =====
-- Runs of the outbox, and the theorems at concrete inputs.
use arveil.Base.{
  ℕ, ◌≡◌, ◌<◌, refl, Bool, true, false, List, [], ◌∷◌, ◌++◌, Option, none, some, Bytes, All, any,
  ok, err, arith,
}
use arveil.Sql.{constraint}
use arveil.Outbox.{
  OutboxRow, Outbox, enqueue, mark_accepted, label, expired_unknown, accepted_until,
  states_for_event,
}
use arveil.Outbox.Keys.{IsWellFormed, sealed_row}
use arveil.Outbox.Retransmission.{here, next, enqueued, accepted, Keeps, Reach-Keeps}

abbrev box : Bytes
box = 10 ∷ []

abbrev event : Bytes
event = 5 ∷ []

abbrev first_row : OutboxRow
first_row = sealed_row [] box (1 ∷ []) (some event) (7 ∷ []) (8 ∷ [])

abbrev second_row : OutboxRow
second_row = sealed_row (first_row ∷ []) box (2 ∷ []) (some event) (7 ∷ []) (9 ∷ [])

abbrev stored : Outbox
stored = first_row ∷ second_row ∷ []

enqueued_twice : (enqueue box (1 ∷ []) none [] [] stored).0 ≡ err constraint
unfolding enqueue arveil.Base.bytes_eq
enqueued_twice = refl

labels_after_custody :
    states_for_event event 5 (mark_accepted 1 (some 5) (mark_accepted 2 (some 9) stored))
    ≡ (box, expired_unknown) ∷ (box, accepted_until 9) ∷ []
unfolding states_for_event label mark_accepted arveil.Base.bytes_eq
labels_after_custody = refl

-- A second confirmation with no expiry keeps the one that stands.
expiry_is_kept :
    mark_accepted 1 none (mark_accepted 1 (some 5) stored) ≡ mark_accepted 1 (some 5) stored
unfolding mark_accepted
expiry_is_kept = refl

stored-IsWellFormed : IsWellFormed stored
unfolding arveil.Base.bytes_eq
stored-IsWellFormed = ((omega arith, tt), refl, (tt, refl, tt))

Reach-Keeps_example :
    Keeps stored (mark_accepted 1 (some 5) (enqueue box (3 ∷ []) none [] [] stored).1)
Reach-Keeps_example =
    Reach-Keeps {s = stored}
      (next (next here (enqueued box (3 ∷ []) none [] [])) (accepted 1 (some 5)))
