-- ===== src/Inbox/Cursors.antt =====
-- The mailbox cursors of core/crates/arveil-core/src/delivery.rs.
use arveil.Base.{ℕ, ◌≡◌, refl, List, Bytes, bytes_eq, any, max, if◌then◌else◌, Bool-cases, inl, inr}
use arveil.Sql.Positions.{Positions, position_update, position_append}
use arveil.Inbox.{CursorRow, at_mailbox, cursor, advanced, set_cursor}

abbrev cursors : Positions CursorRow
cursors = record {
  key = λ r. r.mailbox_id;
  position = λ r. r.cursor;
  row = λ m c. record { mailbox_id = m; cursor = c };
  raise = advanced;
  key_row = λ m c. refl;
  position_row = λ m c. refl;
  key_raise = λ c r. refl;
  position_raise = λ c r. refl;
}

-- Setting a cursor moves it to the larger of the two positions, never back, and leaves the cursors
-- of other mailboxes as they were; a mailbox with no cursor stands at 0.
pub cursor-set_cursor :
    (m j : Bytes) (c : ℕ) (s : List CursorRow)
    → cursor j (set_cursor m c s) ≡ (if bytes_eq m j then max (cursor m s) c else cursor j s)
unfolding set_cursor cursor
cursor-set_cursor m j c s = elim (Bool-cases (any (at_mailbox m) s)) [
  | inl old ↦ rw old (position_update cursors m j c s old)
  | inr new ↦ rw new (position_append cursors m j c s new)
]
