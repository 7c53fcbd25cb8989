-- ===== src/Requests/Tests.antt =====
-- Runs of the requests, and the theorems at concrete inputs.
use arveil.Base.{
  ℕ, ◌≡◌, refl, Bool, true, false, List, [], ◌∷◌, Option, none, some, Bytes, bytes_eq, any, ok, map,
}
use arveil.Sql.Tables.{IsKeyed, map_option}
use arveil.Requests.{
  pending, declined, no_card, link, in_person_pending, ConversationRow, Conversations, by_group,
  request, request_set_card, request_resolve, requests_pending, requests_in_person_pending,
}
use arveil.Requests.Origin.{ask, set_from, resolve, origin, run, origin_is_fixed, with_card}

abbrev asked : ConversationRow
asked = record {
  group_id = 1 ∷ [];
  created_at = 8;
  request = some 1;
  request_from = some (5 ∷ []);
  request_card = some "in-person-pending";
  request_card_at = none;
  request_name = none;
}

abbrev quiet : ConversationRow
quiet = record {
  group_id = 2 ∷ [];
  created_at = 7;
  request = none;
  request_from = none;
  request_card = none;
  request_card_at = none;
  request_name = none;
}

abbrev conversations : Conversations
conversations = asked ∷ quiet ∷ []

conversations-IsKeyed : IsKeyed by_group conversations
unfolding arveil.Base.bytes_eq
conversations-IsKeyed = (refl, (refl, tt))

codes_wait_for_a_root :
    requests_in_person_pending conversations
    ≡ ok (
        record {
          group_id = 1 ∷ [];
          status = pending;
          from = some (5 ∷ []);
          card = in_person_pending;
          name = none;
        }
        ∷ [])
unfolding requests_in_person_pending arveil.Requests.in_person_requests
    arveil.Requests.in_person_request arveil.Base.bytes_eq
codes_wait_for_a_root = refl

a_declined_request_is_gone : requests_pending (request_resolve (1 ∷ []) false conversations) ≡ []
unfolding requests_pending request_resolve arveil.Requests.somes arveil.Base.bytes_eq
a_declined_request_is_gone = refl

origin_is_fixed_example :
    origin
      (1 ∷ [])
      (run (set_from (1 ∷ []) (6 ∷ []) ∷ resolve (1 ∷ []) false ∷ ask (1 ∷ []) ∷ []) conversations)
    ≡ some (5 ∷ [])
unfolding arveil.Base.bytes_eq
origin_is_fixed_example =
    origin_is_fixed (1 ∷ []) (5 ∷ [])
      (set_from (1 ∷ []) (6 ∷ []) ∷ resolve (1 ∷ []) false ∷ ask (1 ∷ []) ∷ []) conversations refl

card_is_shown :
    request (1 ∷ []) (request_set_card (1 ∷ []) (link 4) none conversations)
    ≡ map_option (with_card (link 4) none) (request (1 ∷ []) conversations)
unfolding request request_set_card arveil.Requests.request_of arveil.Requests.status_of
    arveil.Requests.card_use arveil.Requests.card_columns arveil.Base.bytes_eq
card_is_shown = refl
