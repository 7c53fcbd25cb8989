-- ===== src/Requests.antt =====
-- Conversations that wait for an answer, of core/crates/arveil-core/src/card_store.rs: the columns
-- of `conversations` that say who asked, with which card, and what was answered.
pub mod Pending
pub mod Origin
mod Tests
use arveil.Base.{
  ℕ, Bool, true, false, ◌&&◌, ◌||◌, String, str_eq, List, [], ◌∷◌, Option, none, some, Bytes, ltb,
  ◌==◌, if◌then◌else◌, map, Result, ok, err, ◌>>=◌,
}
use arveil.Sql.{SqlError, no_rows, coalesce, update_where, select}
use arveil.Sql.Tables.{Keyed, by_blob, at, row_at, order_by}
use arveil.Cbor.{lex_le}
use arveil.Client.{ClientError, sqlite}

pub data RequestStatus : Type 0 where
  pending declined : RequestStatus

pub data CardUse : Type 0 where
  no_card : CardUse
  link : ℕ → CardUse
  in_person_pending in_person : CardUse

pub record Request : Type 0 where
  pub group_id : Bytes
  pub status : RequestStatus
  pub from : Option Bytes
  pub card : CardUse
  pub name : Option Bytes

-- A row of `conversations`, with the columns of its request.
pub record ConversationRow : Type 0 where
  pub group_id : Bytes
  pub created_at : ℕ
  pub request : Option ℕ
  pub request_from : Option Bytes
  pub request_card : Option String
  pub request_card_at : Option ℕ
  pub request_name : Option Bytes

abbrev pub Conversations : Type 0
Conversations = List ConversationRow

abbrev pub by_group : Keyed Bytes ConversationRow
by_group = by_blob (λ r. r.group_id)

-- `Some("link")` needs its time.
abbrev pub link_at : Option ℕ → CardUse
link_at none = no_card
link_at (some t) = link t

unfoldable pub card_use : Option String → Option ℕ → CardUse
card_use none t = no_card
card_use (some kind) t =
    if str_eq kind "link"
    then link_at t
    else if str_eq kind "in-person-pending"
    then in_person_pending
    else if str_eq kind "in-person"
    then in_person
    else no_card

abbrev pub is_null : Option ℕ → Bool
is_null none = true
is_null (some n) = false

abbrev pub opened : ConversationRow → ConversationRow
opened r = record r { request = some 1 }

-- `WHERE group_id = ?1 AND request IS NULL`
abbrev pub is_unasked : Bytes → ConversationRow → Bool
is_unasked group r = at by_group group r && is_null r.request

unfoldable pub request_open : Bytes → Conversations → Conversations
request_open group_id = update_where (is_unasked group_id) opened

unfoldable pub status_of : Option ℕ → Option RequestStatus
status_of none = none
status_of (some n) = if n == 1 then some pending else if n == 2 then some declined else none

abbrev pub request_with : Bytes → ConversationRow → Option RequestStatus → Option Request
request_with group r none = none
request_with group r (some status) = some record {
  group_id = group;
  status = status;
  from = r.request_from;
  card = card_use r.request_card r.request_card_at;
  name = r.request_name;
}

unfoldable pub request_of : Bytes → Option ConversationRow → Option Request
request_of group none = none
request_of group (some r) = request_with group r (status_of r.request)

unfoldable pub request : Bytes → Conversations → Option Request
request group_id s = request_of group_id (row_at by_group group_id s)

abbrev pub is_null_blob : Option Bytes → Bool
is_null_blob none = true
is_null_blob (some b) = false

-- `WHERE group_id = ?1 AND request_from IS NULL`
abbrev pub is_fromless : Bytes → ConversationRow → Bool
is_fromless group r = at by_group group r && is_null_blob r.request_from

abbrev pub asked_by : Bytes → ConversationRow → ConversationRow
asked_by identity r = record r { request_from = some identity }

unfoldable pub request_set_from : Bytes → Bytes → Conversations → Conversations
request_set_from group_id identity = update_where (is_fromless group_id) (asked_by identity)

-- The two columns of a card.
unfoldable pub card_columns : CardUse → Option String × Option ℕ
card_columns no_card = (none, none)
card_columns (link created_at) = (some "link", some created_at)
card_columns in_person_pending = (some "in-person-pending", none)
card_columns in_person = (some "in-person", none)

abbrev pub carded : CardUse → Option Bytes → ConversationRow → ConversationRow
carded card name r = record r {
  request_card = (card_columns card).0;
  request_card_at = (card_columns card).1;
  request_name = coalesce name r.request_name;
}

unfoldable pub request_set_card : Bytes → CardUse → Option Bytes → Conversations → Conversations
request_set_card group_id card name = update_where (at by_group group_id) (carded card name)

abbrev pub answered : Bool → ConversationRow → ConversationRow
answered accepted r = record r { request = if accepted then none else some 2 }

unfoldable pub request_resolve : Bytes → Bool → Conversations → Conversations
request_resolve group_id accepted = update_where (at by_group group_id) (answered accepted)

abbrev pub is_pending : ConversationRow → Bool
is_pending r = elim r.request [ none ↦ false | some n ↦ n == 1 ]

-- `ORDER BY created_at, group_id`
abbrev pub group_order : ConversationRow → ConversationRow → Bool
group_order a b =
    ltb a.created_at b.created_at || (a.created_at == b.created_at && lex_le a.group_id b.group_id)

-- `filter_map(…).collect()`
unfoldable pub somes : List (Option Request) → List Request
somes [] = []
somes (none ∷ l) = somes l
somes (some r ∷ l) = r ∷ somes l

unfoldable pub requests_pending : Conversations → List Request
requests_pending s =
    somes
      (map (λ g. request g s) (map (λ r. r.group_id) (order_by group_order (select is_pending s))))

abbrev pub is_in_person_pending : ConversationRow → Bool
is_in_person_pending r = elim r.request_card [
  | none ↦ false
  | some k ↦ str_eq k "in-person-pending"
]

-- `row.0 == Some(2)`
abbrev pub declined_or_pending : Option ℕ → RequestStatus
declined_or_pending none = pending
declined_or_pending (some n) = if n == 2 then declined else pending

unfoldable pub in_person_request : Bytes → Option ConversationRow → Result ClientError Request
in_person_request group none = err (sqlite no_rows)
in_person_request group (some r) = ok record {
  group_id = group;
  status = declined_or_pending r.request;
  from = r.request_from;
  card = in_person_pending;
  name = r.request_name;
}

-- The loop over the groups.
unfoldable pub in_person_requests : List Bytes → Conversations → Result ClientError (List Request)
in_person_requests [] s = ok []
in_person_requests (g ∷ groups) s = do
  r ← in_person_request g (row_at by_group g s)
  rest ← in_person_requests groups s
  ok (r ∷ rest)

unfoldable pub requests_in_person_pending : Conversations → Result ClientError (List Request)
requests_in_person_pending s =
    in_person_requests (map (λ r. r.group_id) (select is_in_person_pending s)) s
