-- ===== src/Attachments.antt =====
-- core/crates/arveil-core/src/attachment_store.rs: the state of file transfers and their chunks.
-- Columns of the tables are natural numbers below 2 ^ 63, which `uint` gives back as they are. The
-- references of the tables are enforced.
pub mod Chunks
mod Tests
use arveil.Base.{
  ℕ, ◌+◌, ◌-◌, ◌^◌, Bool, true, false, not, ◌&&◌, ◌||◌, String, List, [], ◌∷◌, ◌++◌, Option, none,
  some, Bytes, bytes_eq, any, leb, ltb, ◌==◌, length, if◌then◌else◌, Result, ok, err, ◌>>=◌, map_ok,
}
use arveil.Events.{Event, Events, has_event_id, in_group}
use arveil.Sql.{SqlError, constraint, invalid_query, update_where, select, first_where}

pub record AttachmentRow : Type 0 where
  pub outgoing : Bool
  pub name : String
  pub size : ℕ
  pub state : String
  pub descriptor : Bytes
  pub offset : ℕ
  pub committed : Bool
  pub expires_at : Option ℕ

pub record Transfer : Type 0 where
  pub event_id : Bytes
  pub row : AttachmentRow

pub record Chunk : Type 0 where
  pub event_id : Bytes
  pub offset : ℕ
  pub bytes : Bytes

-- `i64::try_from`
unfoldable pub integer : ℕ → Result SqlError ℕ
integer value = if ltb value (2 ^ 63) then ok value else err invalid_query

abbrev pub kind_and_body : Option Event → Option (String × Bytes)
kind_and_body none = none
kind_and_body (some e) = some (e.kind, e.body)

-- An identifier from another conversation finds nothing.
unfoldable pub event : Bytes → Bytes → Events → Option (String × Bytes)
event group id s = kind_and_body (first_where (λ e. in_group group e && has_event_id id e) s)

abbrev pub of_event : Bytes → Transfer → Bool
of_event id t = bytes_eq t.event_id id

abbrev pub row_of : Option Transfer → Option AttachmentRow
row_of none = none
row_of (some t) = some t.row

unfoldable pub attachment : Bytes → List Transfer → Option AttachmentRow
attachment id s = row_of (first_where (of_event id) s)

-- The offset, the commitment and the expiry begin with their defaults.
unfoldable pub attachment_create :
    Bytes → AttachmentRow → Events → List Transfer → Result SqlError (Unit {0}) × List Transfer
unfolding integer
attachment_create id row events s = elim (integer row.size) [
  | err e ↦ (err e, s)
  | ok size ↦
      if not (any (has_event_id id) events) || any (of_event id) s then (err constraint, s) else (
        ok tt,
        s
            ++ record {
              event_id = id;
              row = record row { size = size; offset = 0; committed = false; expires_at = none };
            }
              ∷ [],
      )
]

unfoldable pub attachment_state : Bytes → String → List Transfer → List Transfer
attachment_state id state =
    update_where (of_event id) (λ t. record t { row = record t.row { state = state } })

unfoldable pub attachment_offset :
    Bytes → ℕ → List Transfer → Result SqlError (Unit {0}) × List Transfer
unfolding integer
attachment_offset id offset s = elim (integer offset) [
  | err e ↦ (err e, s)
  | ok n ↦
      (ok tt, update_where (of_event id) (λ t. record t { row = record t.row { offset = n } }) s)
]

-- `expiry.map(integer).transpose()`
unfoldable pub transposed : Option ℕ → Result SqlError (Option ℕ)
unfolding integer
transposed none = ok none
transposed (some n) = map_ok some (integer n)

abbrev pub is_some : Option ℕ → Bool
is_some none = false
is_some (some n) = true

unfoldable pub attachment_descriptor :
    Bytes → Bytes → Option ℕ → List Transfer → Result SqlError (Unit {0}) × List Transfer
unfolding transposed
attachment_descriptor id descriptor expiry s = elim (transposed expiry) [
  | err e ↦ (err e, s)
  | ok expires_at ↦ (
    ok tt,
    update_where (of_event id)
        (λ t. record t {
          row = record t.row {
            descriptor = descriptor;
            committed = is_some expiry;
            expires_at = expires_at;
          };
        })
        s,
  )
]

abbrev pub is_chunk : Bytes → ℕ → Chunk → Bool
is_chunk id offset c = bytes_eq c.event_id id && c.offset == offset

unfoldable pub attachment_chunk :
    Bytes → ℕ → Bytes → List Transfer → List Chunk → Result SqlError (Unit {0}) × List Chunk
unfolding integer
attachment_chunk id offset bytes transfers s = elim (integer offset) [
  | err e ↦ (err e, s)
  | ok n ↦
      if not (any (of_event id) transfers) || any (is_chunk id n) s
      then (err constraint, s)
      else (ok tt, s ++ record { event_id = id; offset = n; bytes = bytes } ∷ [])
]

-- `ORDER BY offset`
unfoldable pub insert_chunk : Chunk → List Chunk → List Chunk
insert_chunk c [] = c ∷ []
insert_chunk c (d ∷ ds) =
    let rest = insert_chunk c ds in if leb c.offset d.offset then c ∷ d ∷ ds else d ∷ rest

unfoldable pub by_offset : List Chunk → List Chunk
unfolding insert_chunk
by_offset [] = []
by_offset (c ∷ cs) = insert_chunk c (by_offset cs)

-- The `while` over the rows, with the bytes so far.
unfoldable pub join_chunks : ℕ → Bytes → List Chunk → Result SqlError Bytes
join_chunks max bytes [] = ok bytes
join_chunks max bytes (c ∷ cs) =
    let rest = join_chunks max (bytes ++ c.bytes) cs in
    if not (c.offset == length bytes) || ltb (max - length bytes) (length c.bytes)
    then err invalid_query
    else rest

unfoldable pub attachment_bytes : Bytes → ℕ → List Chunk → Result SqlError Bytes
unfolding by_offset join_chunks
attachment_bytes id max s = join_chunks max [] (by_offset (select (λ c. bytes_eq c.event_id id) s))

unfoldable pub attachment_clear_bytes :
    Bytes → List Chunk → List Transfer → List Chunk × Result SqlError (Unit {0}) × List Transfer
unfolding attachment_offset
attachment_clear_bytes id chunks s =
    let (r, s') = attachment_offset id 0 s in
    (select (λ c. not (bytes_eq c.event_id id)) chunks, r, s')
