-- ===== src/Events/Tests.antt =====
-- Runs of the events and the markers, and the theorems at concrete inputs.
use arveil.Base.{
  ℕ, ◌+◌, ◌≤◌, ◌≡◌, refl, Bool, true, false, String, List, [], ◌∷◌, ◌++◌, Option, none, some, Bytes,
  ok, err, arith, max, min, bytes_eq, if◌then◌else◌, map,
}
use arveil.Events.{
  Event, Events, EventSender, recorded, events_page, newest_first, read_cursor, put_marker,
  mark_read, unread_count,
}
use arveil.Events.Markers.{IsBounded}

abbrev group : Bytes
group = 20 ∷ []

abbrev own : Option Bytes
own = some (1 ∷ [])

abbrev peer : Option EventSender
peer = some (record { device_id = some (8 ∷ []); identity_id = some (2 ∷ []) })

abbrev first_event : Event
first_event = recorded [] group (31 ∷ []) "received" (9 ∷ []) peer 100

abbrev second_event : Event
second_event = recorded (first_event ∷ []) group (32 ∷ []) "sent" (9 ∷ []) none 101

abbrev stored : Events
stored = first_event ∷ second_event ∷ []

page_of_one : map (λ e. e.event_id) (events_page group none 1 stored) ≡ (32 ∷ []) ∷ []
unfolding events_page newest_first arveil.Base.bytes_eq
page_of_one = refl

next_page : map (λ e. e.event_id) (events_page group (some 2) 1 stored) ≡ (31 ∷ []) ∷ []
unfolding events_page newest_first arveil.Base.bytes_eq
next_page = refl

one_unread : unread_count group own stored [] ≡ 1
unfolding unread_count read_cursor arveil.Base.bytes_eq
one_unread = refl

marked_past_the_end : (mark_read group 50 stored []).0 ≡ 2
unfolding mark_read read_cursor put_marker arveil.Base.bytes_eq
marked_past_the_end = refl

none_stands : IsBounded stored []
unfolding read_cursor
none_stands g = omega arith
