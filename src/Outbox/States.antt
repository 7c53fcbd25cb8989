-- ===== src/Outbox/States.antt =====
-- What the sender is told about an event's envelopes, of core/crates/arveil-core/src/delivery.rs.
use arveil.Base.{
  ℕ, ◌+◌, ◌≡◌, refl, sym, ap, ap₂, ◌&&◌, ◌||◌, Bool, true, false, str_eq, str_eq_iff, List, [], ◌∷◌,
  Option, none, some, Bytes, map, arith, if◌then◌else◌,
}
use arveil.Sql.{select, count_where, update_where_idem}
use arveil.Outbox.{
  OutboxRow, Outbox, Label, queued, expired_unknown, undeliverable, label, at_id, confirmed,
  is_event, is_expired, states_for_event, notification_counts, mark_accepted,
}

abbrev pub is_queued : Label → Bool
is_queued queued = true
is_queued _ = false

abbrev pub is_failed : Label → Bool
is_failed expired_unknown = true
is_failed undeliverable = true
is_failed _ = false

is_queued-label : (now : ℕ) (r : OutboxRow) → is_queued (label now r) ≡ str_eq r.state "sealed"
unfolding label
is_queued-label now r = ground arith

is_failed-label :
    (now : ℕ) (r : OutboxRow)
    → is_failed (label now r)
      ≡ str_eq r.state "undeliverable" || (str_eq r.state "accepted" && is_expired now r.expires_at)
unfolding label
is_failed-label now r = ground (
  arith,
  str_eq_iff r.state "sealed",
  str_eq_iff r.state "accepted",
  str_eq_iff r.state "undeliverable",
  str_eq_iff "sealed" "accepted",
  str_eq_iff "sealed" "undeliverable",
  str_eq_iff "accepted" "undeliverable",
)

abbrev pub counted : List (Bytes × Label) → ℕ × ℕ
counted labels = (count_where (λ l. is_queued l.1) labels, count_where (λ l. is_failed l.1) labels)

labels_agree :
    (now : ℕ) (rows : List OutboxRow)
    → counted (map (λ r. (r.mailbox_id, label now r)) rows) ≡ (
      count_where (λ r. str_eq r.state "sealed") rows,
      count_where
          (λ r.
            str_eq r.state "undeliverable"
            || (str_eq r.state "accepted" && is_expired now r.expires_at))
          rows,
    )
labels_agree now [] = refl
labels_agree now (r ∷ rows) =
    let ih = labels_agree now rows in
    let queued_ih = ap (λ (t : ℕ × ℕ). t.0) ih in
    let failed_ih = ap (λ (t : ℕ × ℕ). t.1) ih in
    rw (is_queued-label now r, is_failed-label now r)
      (ap₂ (λ a b. (a, b)) (ap (λ n. (if str_eq r.state "sealed" then 1 else 0) + n) queued_ih)
        (ap
          (λ n.
            (if str_eq r.state "undeliverable"
                || (str_eq r.state "accepted" && is_expired now r.expires_at)
              then 1
              else 0)
            + n)
          failed_ih))

-- The two counts of an event's notification are those of its labels: pending are the envelopes
-- labelled queued, failed the ones labelled undeliverable or expired.
pub notification_counts-states_for_event :
    (event : Bytes) (now : ℕ) (s : Outbox)
    → notification_counts event now s ≡ counted (states_for_event event now s)
unfolding notification_counts states_for_event
notification_counts-states_for_event event now s =
    sym (labels_agree now (select (λ r. is_event event r.event_id) s))

-- Confirming custody again, with the same expiry, changes nothing.
pub mark_accepted_idem :
    (id : ℕ) (expiry : Option ℕ) (s : Outbox)
    → mark_accepted id expiry (mark_accepted id expiry s) ≡ mark_accepted id expiry s
unfolding mark_accepted
mark_accepted_idem id none s =
    update_where_idem (at_id id) (confirmed none) s (λ r. refl) (λ r. refl)
mark_accepted_idem id (some t) s =
    update_where_idem (at_id id) (confirmed (some t)) s (λ r. refl) (λ r. refl)
