-- ===== src/Events.antt =====
-- The local events and the read markers of core/crates/arveil-core/src/delivery.rs. `created_at`
-- is the clock's, an argument of the call that records; cursors are natural numbers.
pub mod Pages
pub mod Markers
mod Tests
use arveil.Base.{
  ℕ, ◌+◌, Bool, true, false, not, ◌&&◌, ◌||◌, String, str_eq, List, [], ◌∷◌, ◌++◌, Option, none,
  some, Bytes, bytes_eq, any, take, leb, ltb, ◌==◌, min, max, if◌then◌else◌, map, Result, ok, err,
}
use arveil.Sql.{SqlError, constraint, update_where, select, count_where, first_where, max_of}

pub record Event : Type 0 where
  pub id : ℕ
  pub group_id : Bytes
  pub event_id : Bytes
  pub kind : String
  pub body : Bytes
  pub created_at : ℕ
  pub sender_device : Option Bytes
  pub sender_identity : Option Bytes

pub record EventSender : Type 0 where
  pub device_id : Option Bytes
  pub identity_id : Option Bytes

abbrev pub Events : Type 0
Events = List Event

abbrev pub own_kinds : List String
own_kinds = "sent" ∷ "sent-file" ∷ "file-outgoing" ∷ []

abbrev pub notice_kinds : List String
notice_kinds = "devices-changed" ∷ []

abbrev pub has_event_id : Bytes → Event → Bool
has_event_id event e = bytes_eq e.event_id event

abbrev pub in_group : Bytes → Event → Bool
in_group group e = bytes_eq e.group_id group

abbrev pub next_id : Events → ℕ
next_id s = max_of (λ e. e.id) s + 1

abbrev pub sender_column : (EventSender → Option Bytes) → Option EventSender → Option Bytes
sender_column column none = none
sender_column column (some s) = column s

-- The row of an insert; `event_id` is unique.
abbrev pub recorded : Events → Bytes → Bytes → String → Bytes → Option EventSender → ℕ → Event
recorded s group_id event_id kind body sender now = record {
  id = next_id s;
  group_id = group_id;
  event_id = event_id;
  kind = kind;
  body = body;
  created_at = now;
  sender_device = sender_column (λ p. p.device_id) sender;
  sender_identity = sender_column (λ p. p.identity_id) sender;
}

unfoldable pub record_event_by :
    Bytes
    → Bytes
    → String
    → Bytes
    → Option EventSender
    → ℕ
    → Events
    → Result SqlError (Unit {0}) × Events
record_event_by group_id event_id kind body sender now s =
    if any (has_event_id event_id) s
    then (err constraint, s)
    else (ok tt, s ++ recorded s group_id event_id kind body sender now ∷ [])

unfoldable pub record_event :
    Bytes → Bytes → String → Bytes → ℕ → Events → Result SqlError (Unit {0}) × Events
unfolding record_event_by
record_event group_id event_id kind body = record_event_by group_id event_id kind body none

abbrev pub moved : String → Bytes → Event → Event
moved kind body e = record e { kind = kind; body = body }

unfoldable pub update_event : Bytes → String → Bytes → Events → Events
update_event event_id kind body = update_where (has_event_id event_id) (moved kind body)

unfoldable pub event_count : Events → ℕ
event_count = count_where (λ e. true)

unfoldable pub events_of_kind : String → Events → List (Bytes × String × Bytes)
events_of_kind kind s = map (λ e. (e.event_id, e.kind, e.body)) (select (λ e. str_eq e.kind kind) s)

-- One event as the archive carries it.
pub record ExportedEvent : Type 0 where
  pub group_id : Bytes
  pub event_id : Bytes
  pub kind : String
  pub body : Bytes
  pub created_at : ℕ

abbrev pub exported : Event → ExportedEvent
exported e = record {
  group_id = e.group_id;
  event_id = e.event_id;
  kind = e.kind;
  body = e.body;
  created_at = e.created_at;
}

unfoldable pub all_events : Events → List ExportedEvent
all_events = map exported

unfoldable pub events_count : Bytes → Events → ℕ
events_count group_id = count_where (in_group group_id)

unfoldable pub events : Bytes → Events → List (Bytes × String × Bytes)
events group_id s = map (λ e. (e.event_id, e.kind, e.body)) (select (in_group group_id) s)

-- `?2 IS NULL OR id < ?2`
abbrev pub is_before : Option ℕ → Event → Bool
is_before none e = true
is_before (some cursor) e = ltb e.id cursor

-- `ORDER BY id DESC`, where the rows stand by increasing ids.
unfoldable pub newest_first : List Event → List Event
newest_first [] = []
newest_first (e ∷ es) = newest_first es ++ e ∷ []

unfoldable pub events_page : Bytes → Option ℕ → ℕ → Events → List Event
events_page group_id before limit s =
    take limit (newest_first (select (λ e. in_group group_id e && is_before before e) s))

pub record Marker : Type 0 where
  pub group_id : Bytes
  pub cursor : ℕ

abbrev pub of_group : Bytes → Marker → Bool
of_group group r = bytes_eq r.group_id group

abbrev pub marker_or_zero : Option Marker → ℕ
marker_or_zero none = 0
marker_or_zero (some r) = r.cursor

unfoldable pub read_cursor : Bytes → List Marker → ℕ
read_cursor group_id markers = marker_or_zero (first_where (of_group group_id) markers)

abbrev pub raised : ℕ → Marker → Marker
raised cursor r = record r { cursor = max r.cursor cursor }

-- `INSERT … ON CONFLICT(group_id) DO UPDATE`
unfoldable pub put_marker : Bytes → ℕ → List Marker → List Marker
put_marker group_id cursor markers =
    if any (of_group group_id) markers
    then update_where (of_group group_id) (raised cursor) markers
    else markers ++ record { group_id = group_id; cursor = cursor } ∷ []

-- Nothing is inserted where the group has no event or the cursor is not positive.
unfoldable pub mark_read : Bytes → ℕ → Events → List Marker → ℕ × List Marker
unfolding read_cursor put_marker
mark_read group_id cursor s markers =
    let newest = max_of (λ e. e.id) (select (in_group group_id) s) in
    let markers' =
      if any (in_group group_id) s && ltb 0 cursor
      then put_marker group_id (min cursor newest) markers
      else markers in
    (read_cursor group_id markers', markers')

-- `?2 IS NULL OR sender_identity IS NULL OR sender_identity != ?2`
abbrev pub by_others : Option Bytes → Option Bytes → Bool
by_others none sender = true
by_others (some own) none = true
by_others (some own) (some sender) = not (bytes_eq sender own)

abbrev pub is_unread : Bytes → Option Bytes → ℕ → Event → Bool
is_unread group own cursor e =
    in_group group e
    && ltb cursor e.id
    && not (any (str_eq e.kind) (own_kinds ++ notice_kinds))
    && by_others own e.sender_identity

unfoldable pub unread_count : Bytes → Option Bytes → Events → List Marker → ℕ
unfolding read_cursor
unread_count group_id own_identity s markers =
    count_where (is_unread group_id own_identity (read_cursor group_id markers)) s
