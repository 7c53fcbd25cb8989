-- ===== src/Outbox.antt =====
-- The outbox of core/crates/arveil-core/src/delivery.rs. Row ids, times and counts are natural
-- numbers; `created_at` and the lock are left out, since no statement reads the one and the
-- other only serializes the calls.
pub mod Keys
pub mod States
pub mod Retransmission
mod Tests
use arveil.Base.{
  ℕ, ◌+◌, Bool, true, false, ◌&&◌, ◌||◌, String, str_eq, List, [], ◌∷◌, ◌++◌, Option, none, some,
  Bytes, bytes_eq, any, leb, ◌==◌, if◌then◌else◌, map, Result, ok, err,
}
use arveil.Sql.{SqlError, constraint, coalesce, update_where, select, count_where, max_of}

-- A row of the table, with the columns of `OutboxRow` and the expiry.
pub record OutboxRow : Type 0 where
  pub id : ℕ
  pub mailbox_id : Bytes
  pub delivery_id : Bytes
  pub event_id : Option Bytes
  pub hpke_enc : Bytes
  pub ciphertext : Bytes
  pub state : String
  pub attempts : ℕ
  pub expires_at : Option ℕ

abbrev pub Outbox : Type 0
Outbox = List OutboxRow

-- `event_id = ?1`, which is not true of NULL.
abbrev pub is_event : Bytes → Option Bytes → Bool
is_event event none = false
is_event event (some e) = bytes_eq e event

-- The columns of `UNIQUE (mailbox_id, delivery_id)`.
abbrev pub has_key : Bytes → Bytes → OutboxRow → Bool
has_key mailbox delivery r = bytes_eq r.mailbox_id mailbox && bytes_eq r.delivery_id delivery

abbrev pub next_id : Outbox → ℕ
next_id s = max_of (λ r. r.id) s + 1

unfoldable pub enqueue :
    Bytes → Bytes → Option Bytes → Bytes → Bytes → Outbox → Result SqlError (Unit {0}) × Outbox
enqueue mailbox_id delivery_id event_id hpke_enc ciphertext s =
    if any (has_key mailbox_id delivery_id) s then (err constraint, s) else (
      ok tt,
      s
          ++ record {
            id = next_id s;
            mailbox_id = mailbox_id;
            delivery_id = delivery_id;
            event_id = event_id;
            hpke_enc = hpke_enc;
            ciphertext = ciphertext;
            state = "sealed";
            attempts = 0;
            expires_at = none;
          }
            ∷ [],
    )

unfoldable pub pending : Outbox → List OutboxRow
pending = select (λ r. str_eq r.state "sealed")

-- `WHERE id = ?1`, and what each of the three updates sets.
abbrev pub at_id : ℕ → OutboxRow → Bool
at_id id r = r.id == id

abbrev pub attempted : OutboxRow → OutboxRow
attempted r = record r { attempts = r.attempts + 1 }

abbrev pub refused : OutboxRow → OutboxRow
refused r = record r { state = "undeliverable" }

abbrev pub confirmed : Option ℕ → OutboxRow → OutboxRow
confirmed expires_at r = record r {
  state = "accepted";
  expires_at = coalesce expires_at r.expires_at;
}

unfoldable pub mark_attempt : ℕ → Outbox → Outbox
mark_attempt id = update_where (at_id id) attempted

unfoldable pub mark_undeliverable : ℕ → Outbox → Outbox
mark_undeliverable id = update_where (at_id id) refused

unfoldable pub mark_accepted : ℕ → Option ℕ → Outbox → Outbox
mark_accepted id expires_at = update_where (at_id id) (confirmed expires_at)

-- The texts of `states_for_event`, before they are rendered.
pub data Label : Type 0 where
  queued expired_unknown : Label
  accepted_until : ℕ → Label
  accepted undeliverable : Label
  other : String → Label

abbrev pub accepted_label : ℕ → Option ℕ → Label
accepted_label now none = accepted
accepted_label now (some t) = if leb t now then expired_unknown else accepted_until t

unfoldable pub label : ℕ → OutboxRow → Label
label now r =
    if str_eq r.state "sealed"
    then queued
    else if str_eq r.state "accepted"
    then accepted_label now r.expires_at
    else if str_eq r.state "undeliverable"
    then undeliverable
    else other r.state

unfoldable pub states_for_event : Bytes → ℕ → Outbox → List (Bytes × Label)
states_for_event event now s =
    map (λ r. (r.mailbox_id, label now r)) (select (λ r. is_event event r.event_id) s)

-- `expires_at <= ?2`, which is not true of NULL.
abbrev pub is_expired : ℕ → Option ℕ → Bool
is_expired now none = false
is_expired now (some t) = leb t now

unfoldable pub notification_counts : Bytes → ℕ → Outbox → ℕ × ℕ
notification_counts event now s =
    let rows = select (λ r. is_event event r.event_id) s in
    (
      count_where (λ r. str_eq r.state "sealed") rows,
      count_where
          (λ r.
            str_eq r.state "undeliverable"
            || (str_eq r.state "accepted" && is_expired now r.expires_at))
          rows,
    )
