-- ===== src/Inbox.antt =====
-- The inbox and the mailbox cursors of core/crates/arveil-core/src/delivery.rs. Sequences and
-- cursors are natural numbers; `received_at` is left out, since no statement reads it.
pub mod Once
pub mod Acks
pub mod Cursors
mod Tests
use arveil.Base.{
  ℕ, Bool, true, false, not, ◌&&◌, List, [], ◌∷◌, ◌++◌, Option, none, some, Bytes, bytes_eq, any,
  leb, max, map, if◌then◌else◌,
}
use arveil.Sql.{update_where, select, first_where}

pub record InboxRow : Type 0 where
  pub mailbox_id : Bytes
  pub delivery_id : Bytes
  pub seq : ℕ
  pub acked : Bool

abbrev pub Inbox : Type 0
Inbox = List InboxRow

-- The columns of `PRIMARY KEY (mailbox_id, delivery_id)`.
abbrev pub has_key : Bytes → Bytes → InboxRow → Bool
has_key mailbox delivery r = bytes_eq r.mailbox_id mailbox && bytes_eq r.delivery_id delivery

-- `INSERT OR IGNORE`, and whether one row was changed.
unfoldable pub record_incoming : Bytes → Bytes → ℕ → Inbox → Bool × Inbox
record_incoming mailbox_id delivery_id seq s =
    if any (has_key mailbox_id delivery_id) s then (false, s) else (
      true,
      s
          ++ record { mailbox_id = mailbox_id; delivery_id = delivery_id; seq = seq; acked = false }
            ∷ [],
    )

-- `ORDER BY seq`
unfoldable pub insert_by_seq : InboxRow → List InboxRow → List InboxRow
insert_by_seq r [] = r ∷ []
insert_by_seq r (q ∷ rows) =
    let rest = insert_by_seq r rows in if leb r.seq q.seq then r ∷ q ∷ rows else q ∷ rest

unfoldable pub order_by_seq : List InboxRow → List InboxRow
unfolding insert_by_seq
order_by_seq [] = []
order_by_seq (r ∷ rows) = insert_by_seq r (order_by_seq rows)

abbrev pub is_unacked : Bytes → InboxRow → Bool
is_unacked mailbox r = bytes_eq r.mailbox_id mailbox && not r.acked

unfoldable pub unacked : Bytes → Inbox → List Bytes
unacked mailbox_id s = map (λ r. r.delivery_id) (order_by_seq (select (is_unacked mailbox_id) s))

abbrev pub acknowledged : InboxRow → InboxRow
acknowledged r = record r { acked = true }

unfoldable pub mark_acked : Bytes → List Bytes → Inbox → Inbox
mark_acked mailbox_id [] s = s
mark_acked mailbox_id (d ∷ ds) s =
    mark_acked mailbox_id ds (update_where (has_key mailbox_id d) acknowledged s)

pub record CursorRow : Type 0 where
  pub mailbox_id : Bytes
  pub cursor : ℕ

abbrev pub at_mailbox : Bytes → CursorRow → Bool
at_mailbox mailbox r = bytes_eq r.mailbox_id mailbox

abbrev pub cursor_or_zero : Option CursorRow → ℕ
cursor_or_zero none = 0
cursor_or_zero (some r) = r.cursor

unfoldable pub cursor : Bytes → List CursorRow → ℕ
cursor mailbox_id s = cursor_or_zero (first_where (at_mailbox mailbox_id) s)

abbrev pub advanced : ℕ → CursorRow → CursorRow
advanced c r = record r { cursor = max r.cursor c }

-- `INSERT … ON CONFLICT(mailbox_id) DO UPDATE`
unfoldable pub set_cursor : Bytes → ℕ → List CursorRow → List CursorRow
set_cursor mailbox_id c s =
    if any (at_mailbox mailbox_id) s
    then update_where (at_mailbox mailbox_id) (advanced c) s
    else s ++ record { mailbox_id = mailbox_id; cursor = c } ∷ []
