-- ===== src/Inbox/Tests.antt =====
-- Runs of the inbox and of the cursors, and the theorems at concrete inputs.
use arveil.Base.{ℕ, ◌≡◌, refl, Bool, true, false, List, [], ◌∷◌, ◌++◌, Bytes}
use arveil.Inbox.{
  Inbox, InboxRow, unacked, order_by_seq, insert_by_seq, mark_acked, cursor, set_cursor,
}
use arveil.Inbox.Once.{Incoming, times_processed, times_processed_lem}

abbrev box : Bytes
box = 10 ∷ []

abbrev other_box : Bytes
other_box = 11 ∷ []

abbrev first_delivery : Bytes
first_delivery = 1 ∷ 1 ∷ []

abbrev second_delivery : Bytes
second_delivery = 2 ∷ 2 ∷ []

abbrev row : Bytes → Bytes → ℕ → InboxRow
row m d n = record { mailbox_id = m; delivery_id = d; seq = n; acked = false }

-- Stored out of the order of their sequences.
abbrev received : Inbox
received =
    row box second_delivery 9 ∷ row other_box first_delivery 1 ∷ row box first_delivery 4 ∷ []

unacked_in_order : unacked box received ≡ first_delivery ∷ second_delivery ∷ []
unfolding unacked order_by_seq insert_by_seq arveil.Base.bytes_eq
unacked_in_order = refl

acked_leaves_the_other :
    unacked box (mark_acked box (first_delivery ∷ []) received) ≡ second_delivery ∷ []
unfolding unacked order_by_seq insert_by_seq mark_acked arveil.Base.bytes_eq
acked_leaves_the_other = refl

cursors_do_not_go_back : cursor box (set_cursor box 3 (set_cursor box 7 [])) ≡ 7
unfolding cursor set_cursor arveil.Base.bytes_eq
cursors_do_not_go_back = refl

abbrev deliveries : List Incoming
deliveries =
    record { mailbox_id = box; delivery_id = first_delivery; seq = 4 }
    ∷ record { mailbox_id = other_box; delivery_id = first_delivery; seq = 1 }
    ∷ record { mailbox_id = box; delivery_id = first_delivery; seq = 6 }
    ∷ []

times_processed_lem_example : times_processed box first_delivery deliveries [] ≡ 1
unfolding arveil.Base.bytes_eq
times_processed_lem_example = times_processed_lem box first_delivery deliveries []
