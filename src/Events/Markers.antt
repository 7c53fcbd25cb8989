-- ===== src/Events/Markers.antt =====
-- What is unread, of core/crates/arveil-core/src/delivery.rs.
use arveil.Base.{
  ℕ, ◌+◌, ◌≤◌, ◌≡◌, refl, ◌∙◌, true, false, ◌&&◌, String, str_eq, List, [], ◌∷◌, ◌++◌, Option,
  Bytes, bytes_eq, bytes_eq_iff, bytes_eq_refl, any, max, min, arith, ltb, if◌then◌else◌,
  Bool-cases, inl, inr, ap,
}
use arveil.Sql.{select, count_where, count_where-append, max_of}
use arveil.Sql.Positions.{Positions, position_update, position_append}
use arveil.Events.{
  Events, EventSender, Marker, of_group, raised, read_cursor, put_marker, mark_read, in_group,
  has_event_id, is_unread, by_others, own_kinds, notice_kinds, unread_count, record_event_by,
  sender_column,
}

abbrev markers_table : Positions Marker
markers_table = record {
  key = λ r. r.group_id;
  position = λ r. r.cursor;
  row = λ g c. record { group_id = g; cursor = c };
  raise = raised;
  key_row = λ g c. refl;
  position_row = λ g c. refl;
  key_raise = λ c r. refl;
  position_raise = λ c r. refl;
}

read_cursor-put_marker :
    (g j : Bytes) (c : ℕ) (markers : List Marker)
    → read_cursor j (put_marker g c markers)
      ≡ (if bytes_eq g j then max (read_cursor g markers) c else read_cursor j markers)
unfolding read_cursor put_marker
read_cursor-put_marker g j c markers = elim (Bool-cases (any (of_group g) markers)) [
  | inl old ↦ rw old (position_update markers_table g j c markers old)
  | inr new ↦ rw new (position_append markers_table g j c markers new)
]

abbrev pub newest_of : Bytes → Events → ℕ
newest_of g s = max_of (λ e. e.id) (select (in_group g) s)

no_newest : (g : Bytes) (s : Events) → any (in_group g) s ≡ false → newest_of g s ≡ 0
no_newest g [] h = refl
no_newest g (e ∷ s) h = ground (arith, no_newest g s)

same_marker :
    (g j : Bytes) (markers : List Marker)
    → bytes_eq g j ≡ true
    → read_cursor g markers ≡ read_cursor j markers
same_marker g j markers h = ap (λ k. read_cursor k markers) ((bytes_eq_iff g j).0 h)

-- Marking a group read moves its marker to the larger of where it stands and the position asked
-- for, the latter cut at the group's newest event, and returns it; the markers of other groups
-- stay, and so does this one where the group has no event.
pub read_cursor-mark_read :
    (g j : Bytes) (c : ℕ) (s : Events) (markers : List Marker)
    → (read_cursor j (mark_read g c s markers).1 ≡ (
        if bytes_eq g j
        then max (read_cursor g markers) (min c (newest_of g s))
        else read_cursor j markers))
      × ((mark_read g c s markers).0 ≡ read_cursor g (mark_read g c s markers).1)
unfolding mark_read
read_cursor-mark_read g j c s markers = elim (Bool-cases (any (in_group g) s && ltb 0 c)) [
  | inl e ↦ (rw e (read_cursor-put_marker g j (min c (newest_of g s)) markers), rw e refl)
  | inr e ↦ (rw e (ground (arith, no_newest g s, same_marker g j markers)), rw e refl)
]

none_unread :
    (g : Bytes) (own : Option Bytes) (k : ℕ) (s : Events)
    → newest_of g s ≤ k
    → count_where (is_unread g own k) s ≡ 0
none_unread g own k [] h = refl
none_unread g own k (e ∷ s) h = ground (arith, none_unread g own k s)

-- Once a group is marked read up to its newest event or beyond, nothing of it is unread.
pub unread_count-mark_read :
    (g : Bytes) (own : Option Bytes) (c : ℕ) (s : Events) (markers : List Marker)
    → newest_of g s ≤ c
    → unread_count g own s (mark_read g c s markers).1 ≡ 0
unfolding unread_count
unread_count-mark_read g own c s markers h =
    none_unread g own (read_cursor g (mark_read g c s markers).1) s
      (ground (arith, (read_cursor-mark_read g g c s markers).0, bytes_eq_refl g))

-- No marker stands past the events.
abbrev pub IsBounded : Events → List Marker → Type 0
IsBounded s markers = (g : Bytes) → read_cursor g markers ≤ max_of (λ e. e.id) s

newest_of_le : (g : Bytes) (s : Events) → newest_of g s ≤ max_of (λ e. e.id) s
newest_of_le g [] = omega arith
newest_of_le g (e ∷ s) = ground (arith, newest_of_le g s)

mark_read-IsBounded :
    (g : Bytes) (c : ℕ) (s : Events) (markers : List Marker)
    → IsBounded s markers
    → IsBounded s (mark_read g c s markers).1
mark_read-IsBounded g c s markers h j =
    ground (arith, (read_cursor-mark_read g j c s markers).0, newest_of_le g s, h g, h j)

-- However far a group was marked read, and even past its end, the next event that another identity
-- writes to it, and that is no notice, counts as unread.
pub unread_count-record_event_by :
    (g event : Bytes) (kind : String) (body : Bytes) (sender : Option EventSender) (now c : ℕ)
    (own : Option Bytes) (s : Events) (markers : List Marker)
    → IsBounded s markers
    → any (has_event_id event) s ≡ false
    → any (str_eq kind) (own_kinds ++ notice_kinds) ≡ false
    → by_others own (sender_column (λ p. p.identity_id) sender) ≡ true
    → unread_count g own
        (record_event_by g event kind body sender now s).1
        (mark_read g c s markers).1
      ≡ unread_count g own s (mark_read g c s markers).1 + 1
unfolding unread_count record_event_by
unread_count-record_event_by g event kind body sender now c own s markers bounded new written
      others =
    rw new (
      count_where-append (is_unread g own (read_cursor g (mark_read g c s markers).1)) s _
      ∙ ground (arith, mark_read-IsBounded g c s markers bounded g, bytes_eq_refl g))
