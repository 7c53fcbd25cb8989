-- ===== src/Cards/Tests.antt =====
-- Runs of the card operations, and the theorems at concrete inputs.
use arveil.Base.{
  ℕ, ◌+◌, ◌≡◌, ◌≤◌, ◌<◌, refl, Bool, true, false, List, [], ◌∷◌, Option, none, some, Bytes,
  bytes_eq, any, arith, ok, err, if◌then◌else◌,
}
use arveil.Sql.{constraint}
use arveil.Sql.Tables.{IsKeyed}
use arveil.Client.{sqlite}
use arveil.Cards.{
  in_person, link, link_seconds, by_secret, CardTable, created, card_create, card_revoke,
  card_redeem, cards_shared,
}
use arveil.Cards.Standing.{standing, redeem, taken}
use arveil.Cards.Refine.{operations_refine}
use arveil.Cards.Redeem.{withdraw, spend, run, in_person_uses, in_person_once}
use arveil.Cards.Links.{link_keeps_working}

abbrev code : Bytes
code = 1 ∷ []

abbrev shared : Bytes
shared = 2 ∷ []

-- A code shown in person at time 100, and a link shared at time 50.
abbrev cards : CardTable
cards = created code in_person 100 ∷ created shared link 50 ∷ []

cards-IsKeyed : IsKeyed by_secret cards
unfolding arveil.Base.bytes_eq
cards-IsKeyed = (refl, (refl, tt))

secret_is_unique : (card_create (some shared) link 7 cards).0 ≡ err (sqlite constraint)
unfolding card_create arveil.Base.bytes_eq
secret_is_unique = refl

code_works_once :
    in_person_uses code (spend code 200 ∷ spend code 201 ∷ spend shared 201 ∷ []) cards ≡ 1
unfolding card_redeem arveil.Cards.spend arveil.Cards.settled arveil.Cards.redeemed
    arveil.Cards.parse arveil.Cards.as_str arveil.Base.bytes_eq
code_works_once = refl

code_is_over : (card_redeem code 700 cards).0 ≡ none
unfolding card_redeem arveil.Cards.spend arveil.Cards.settled arveil.Cards.redeemed
    arveil.Cards.parse arveil.Cards.as_str arveil.Base.bytes_eq
code_is_over = refl

in_person_once_example :
    in_person_uses code (spend code 200 ∷ spend code 201 ∷ withdraw code ∷ []) cards ≤ 1
in_person_once_example =
    in_person_once code (spend code 200 ∷ spend code 201 ∷ withdraw code ∷ []) cards cards-IsKeyed

operations_refine_example :
    (card_redeem code 200 cards).0 ≡ (redeem code 200 (standing code cards)).0
operations_refine_example = (operations_refine code shared in_person 200 cards cards-IsKeyed).3.0

link_keeps_working_example :
    (v : ℕ) × ((card_redeem (3 ∷ []) 9000 (
        run
          (spend (3 ∷ []) 500 ∷ withdraw code ∷ [])
          (card_create (some (3 ∷ [])) link 300 cards).1)).0
      ≡ some (taken (3 ∷ []) link 300 (300 + link_seconds) v))
unfolding arveil.Base.bytes_eq
link_keeps_working_example =
    link_keeps_working (3 ∷ []) 300 9000 (spend (3 ∷ []) 500 ∷ withdraw code ∷ []) cards
      cards-IsKeyed refl (tt, (refl, tt)) (omega arith)
