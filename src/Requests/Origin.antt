-- ===== src/Requests/Origin.antt =====
-- Who asked, and with which card, over runs of the requests of
-- core/crates/arveil-core/src/card_store.rs.
use arveil.Base.{
  ◌≡◌, refl, ap, sym, ◌∙◌, Bool, true, List, [], ◌∷◌, Option, none, some, Bytes, bytes_eq_iff,
  Bool-cases, Option-cases, inl, inr, arith,
}
use arveil.Sql.{update_where, coalesce}
use arveil.Sql.Tables.{map_option, at, row_at, row_at-update_where, row_at-key}
use arveil.Requests.{
  RequestStatus, CardUse, no_card, link, in_person_pending, in_person, Request, ConversationRow,
  Conversations, by_group, card_use, is_unasked, opened, request_open, request_of, request_with,
  status_of, request, is_fromless, asked_by, request_set_from, card_columns, carded,
  request_set_card, answered, request_resolve,
}

-- A call of an operation that writes a request.
pub data RequestStep : Type 0 where
  ask : Bytes → RequestStep
  set_from : Bytes → Bytes → RequestStep
  set_card : Bytes → CardUse → Option Bytes → RequestStep
  resolve : Bytes → Bool → RequestStep

abbrev pub step : RequestStep → Conversations → Conversations
step (ask group) s = request_open group s
step (set_from group identity) s = request_set_from group identity s
step (set_card group card name) s = request_set_card group card name s
step (resolve group accepted) s = request_resolve group accepted s

abbrev pub run : List RequestStep → Conversations → Conversations
run [] s = s
run (c ∷ steps) s = run steps (step c s)

abbrev pub from_column : Option ConversationRow → Option Bytes
from_column none = none
from_column (some r) = r.request_from

-- Who asked in the conversation.
abbrev pub origin : Bytes → Conversations → Option Bytes
origin group s = from_column (row_at by_group group s)

update-origin :
    (group who : Bytes) (p : ConversationRow → Bool) (f : ConversationRow → ConversationRow)
    (s : Conversations)
    → ((r : ConversationRow) → (f r).group_id ≡ r.group_id)
    → ((r : ConversationRow)
        → r.request_from ≡ some who
        → p r ≡ true
        → (f r).request_from ≡ some who)
    → origin group s ≡ some who
    → origin group (update_where p f s) ≡ some who
update-origin group who p f s keys keeps h =
    ap from_column (row_at-update_where by_group p f keys group s)
    ∙ elim (Option-cases (row_at by_group group s)) [
      | inl e ↦ rw e (ap from_column (sym e) ∙ h)
      | inr (r, e) ↦
          let mine : r.request_from ≡ some who = ap from_column (sym e) ∙ h in
          elim (Bool-cases (p r)) [
            | inl q ↦ rw e (rw q (keeps r mine q))
            | inr q ↦ rw e (rw q mine)
          ]
    ]

step-origin :
    (group who : Bytes) (c : RequestStep) (s : Conversations)
    → origin group s ≡ some who
    → origin group (step c s) ≡ some who
unfolding request_open request_set_from request_set_card request_resolve
step-origin group who (ask other) s h =
    update-origin group who (is_unasked other) opened s (λ r. refl) (λ r m q. m) h
step-origin group who (set_from other identity) s h =
    update-origin group who (is_fromless other) (asked_by identity) s (λ r. refl)
      (λ r m q. ground (arith, m, q)) h
step-origin group who (set_card other card name) s h =
    update-origin group who (at by_group other) (carded card name) s (λ r. refl) (λ r m q. m) h
step-origin group who (resolve other accepted) s h =
    update-origin group who (at by_group other) (answered accepted) s (λ r. refl) (λ r m q. m) h

-- Who asked is set once: where a conversation names who asked, it names the same identity after any
-- sequence of openings, namings, cards and answers.
pub origin_is_fixed :
    (group who : Bytes) (steps : List RequestStep) (s : Conversations)
    → origin group s ≡ some who
    → origin group (run steps s) ≡ some who
origin_is_fixed group who [] s h = h
origin_is_fixed group who (c ∷ steps) s h =
    origin_is_fixed group who steps (step c s) (step-origin group who c s h)

card_use-card_columns :
    (card : CardUse) → card_use (card_columns card).0 (card_columns card).1 ≡ card
unfolding card_use card_columns
card_use-card_columns no_card = refl
card_use-card_columns (link t) = refl
card_use-card_columns in_person_pending = refl
card_use-card_columns in_person = refl

-- The request with another card, and another name if there is one.
abbrev pub with_card : CardUse → Option Bytes → Request → Request
with_card card name q = record q { card = card; name = coalesce name q.name }

request_with-carded :
    (group : Bytes) (card : CardUse) (name : Option Bytes) (r : ConversationRow)
    (o : Option RequestStatus)
    → request_with group (carded card name r) o
      ≡ map_option (with_card card name) (request_with group r o)
request_with-carded group card name r none = refl
request_with-carded group card name r (some status) = rw (card_use-card_columns card) refl

-- What a hello carried is what a request shows: after its card is set, the request of a conversation
-- shows this card, link times included, and the name that came with it or else the name before, and
-- is otherwise as it was; where there is no request, there is none afterwards.
pub request-request_set_card :
    (group : Bytes) (card : CardUse) (name : Option Bytes) (s : Conversations)
    → request group (request_set_card group card name s)
      ≡ map_option (with_card card name) (request group s)
unfolding request request_of request_set_card
request-request_set_card group card name s =
    ap (request_of group)
      (row_at-update_where by_group (at by_group group) (carded card name) (λ r. refl) group s)
    ∙ elim (Option-cases (row_at by_group group s)) [
      | inl e ↦ rw e refl
      | inr (r, e) ↦
          let key = (bytes_eq_iff r.group_id group).1 (row_at-key by_group group s r e) in
          rw e (rw key (request_with-carded group card name r (status_of r.request)))
    ]
