-- ===== src/Cards/Redeem.antt =====
-- Runs of the card operations of core/crates/arveil-core/src/card_store.rs.
use arveil.Base.{
  ℕ, ◌+◌, ◌≤◌, ◌≡◌, refl, ap, ◌∙◌, List, [], ◌∷◌, Option, none, some, Bytes, bytes_eq, bytes_eq_iff,
  ltb, if◌then◌else◌, arith, Bool-cases, inl, inr,
}
use arveil.Sql.Tables.{IsKeyed}
use arveil.Cards.{
  CardKind, in_person, link, CardTable, by_secret, OwnCard, is_in_person, card_create, card_revoke,
  card_redeem,
}
use arveil.Cards.Standing.{
  Standing, unknown, gone, inert, live, standing, issue, revoke, redeem, card_create-standing,
}
use arveil.Cards.Refine.{
  card_revoke-standing, card_redeem-standing, card_create-IsKeyed, card_revoke-IsKeyed,
  card_redeem-IsKeyed,
}

-- A call of an operation.
pub data CardStep : Type 0 where
  create : Option Bytes → CardKind → ℕ → CardStep
  withdraw : Bytes → CardStep
  spend : Bytes → ℕ → CardStep

abbrev pub step : CardStep → CardTable → CardTable
step (create secret kind now) s = (card_create secret kind now s).1
step (withdraw secret) s = (card_revoke secret s).1
step (spend secret now) s = (card_redeem secret now s).1

abbrev pub run : List CardStep → CardTable → CardTable
run [] s = s
run (c ∷ steps) s = run steps (step c s)

-- Whether a redemption gave an in-person card.
abbrev pub gave_in_person : Option OwnCard → ℕ
gave_in_person none = 0
gave_in_person (some card) = if is_in_person card.kind then 1 else 0

-- How often the steps redeem one secret as an in-person card.
abbrev pub uses_now : Bytes → CardStep → CardTable → ℕ
uses_now secret (create other kind now) s = 0
uses_now secret (withdraw other) s = 0
uses_now secret (spend other now) s =
    if bytes_eq other secret then gave_in_person (card_redeem other now s).0 else 0

abbrev pub in_person_uses : Bytes → List CardStep → CardTable → ℕ
in_person_uses secret [] s = 0
in_person_uses secret (c ∷ steps) s = uses_now secret c s + in_person_uses secret steps (step c s)

-- How often a standing can still be used as an in-person card.
abbrev allowance : Standing → ℕ
allowance unknown = 1
allowance gone = 0
allowance inert = 0
allowance (live in_person c e none) = 1
allowance (live in_person c e (some u)) = 0
allowance (live link c e u) = 0

-- What one step does to one standing.
abbrev pub standing_step : Bytes → CardStep → Standing → Standing
standing_step secret (create none kind now) st = st
standing_step secret (create (some other) kind now) st =
    if bytes_eq other secret then (issue kind now st).1 else st
standing_step secret (withdraw other) st = if bytes_eq other secret then (revoke st).1 else st
standing_step secret (spend other now) st =
    if bytes_eq other secret then (redeem other now st).1 else st

-- An operation on the standing of `other`, seen from `secret`.
seen_from :
    (other secret : Bytes) (s : CardTable) (g : Standing → Standing) (new : Standing)
    → new ≡ (if bytes_eq other secret then g (standing other s) else standing secret s)
    → new ≡ (if bytes_eq other secret then g (standing secret s) else standing secret s)
seen_from other secret s g new h = elim (Bool-cases (bytes_eq other secret)) [
  | inl e ↦
      h
      ∙ ap (λ k. if bytes_eq other secret then g (standing k s) else standing secret s)
          ((bytes_eq_iff other secret).0 e)
  | inr e ↦ h ∙ rw e refl
]

pub step-standing :
    (secret : Bytes) (c : CardStep) (s : CardTable)
    → IsKeyed by_secret s
    → standing secret (step c s) ≡ standing_step secret c (standing secret s)
unfolding card_create
step-standing secret (create none kind now) s w = refl
step-standing secret (create (some other) kind now) s w =
    seen_from other secret s (λ st. (issue kind now st).1) _
      ((card_create-standing other s kind now secret).1)
step-standing secret (withdraw other) s w =
    seen_from other secret s (λ st. (revoke st).1) _ ((card_revoke-standing other secret s w).1)
step-standing secret (spend other now) s w =
    seen_from other secret s (λ st. (redeem other now st).1) _
      ((card_redeem-standing other secret s now).1)

pub step-IsKeyed :
    (c : CardStep) (s : CardTable) → IsKeyed by_secret s → IsKeyed by_secret (step c s)
step-IsKeyed (create secret kind now) s w = card_create-IsKeyed secret kind now s w
step-IsKeyed (withdraw secret) s w = card_revoke-IsKeyed secret [] s w
step-IsKeyed (spend secret now) s w = card_redeem-IsKeyed secret [] s now w

issue-allowance :
    (kind : CardKind) (now : ℕ) (st : Standing) → allowance (issue kind now st).1 ≤ allowance st
unfolding issue
issue-allowance in_person now unknown = omega arith
issue-allowance link now unknown = omega arith
issue-allowance kind now gone = omega arith
issue-allowance kind now inert = omega arith
issue-allowance kind now (live k c e u) = omega arith

revoke-allowance : (st : Standing) → allowance (revoke st).1 ≤ allowance st
unfolding revoke
revoke-allowance unknown = omega arith
revoke-allowance gone = omega arith
revoke-allowance inert = omega arith
revoke-allowance (live k c e u) = omega arith

redeem-allowance :
    (secret : Bytes) (now : ℕ) (st : Standing)
    → gave_in_person (redeem secret now st).0 + allowance (redeem secret now st).1 ≤ allowance st
unfolding redeem
redeem-allowance secret now unknown = omega arith
redeem-allowance secret now gone = omega arith
redeem-allowance secret now inert = omega arith
redeem-allowance secret now (live in_person c e none) = elim (Bool-cases (ltb now e)) [
  | inl h ↦ rw h (omega arith)
  | inr h ↦ rw h (omega arith)
]
redeem-allowance secret now (live in_person c e (some u)) = omega arith
redeem-allowance secret now (live link c e u) = elim (Bool-cases (ltb now e)) [
  | inl h ↦ rw h (omega arith)
  | inr h ↦ rw h (omega arith)
]

uses-standing :
    (secret : Bytes) (c : CardStep) (s : CardTable)
    → IsKeyed by_secret s
    → uses_now secret c s + allowance (standing_step secret c (standing secret s))
      ≤ allowance (standing secret s)
uses-standing secret (create none kind now) s w = omega arith
uses-standing secret (create (some other) kind now) s w =
    elim (Bool-cases (bytes_eq other secret)) [
      | inl e ↦ rw e (omega (arith, issue-allowance kind now (standing secret s)))
      | inr e ↦ rw e (omega arith)
    ]
uses-standing secret (withdraw other) s w = elim (Bool-cases (bytes_eq other secret)) [
  | inl e ↦ rw e (omega (arith, revoke-allowance (standing secret s)))
  | inr e ↦ rw e (omega arith)
]
uses-standing secret (spend other now) s w = elim (Bool-cases (bytes_eq other secret)) [
  | inl e ↦ rw e (
      rw ((card_redeem-standing other [] s now).0)
        (rw ((bytes_eq_iff other secret).0 e) (redeem-allowance secret now (standing secret s))))
  | inr e ↦ rw e (omega arith)
]

run-allowance :
    (secret : Bytes) (steps : List CardStep) (s : CardTable)
    → IsKeyed by_secret s
    → in_person_uses secret steps s ≤ allowance (standing secret s)
run-allowance secret [] s w = omega arith
run-allowance secret (c ∷ steps) s w =
    let rest = run-allowance secret steps (step c s) (step-IsKeyed c s w) in
    let now = uses-standing secret c s w in
    let same = ap allowance (step-standing secret c s w) in omega (arith, rest, now, same)

allowance-bound : (st : Standing) → allowance st ≤ 1
allowance-bound unknown = omega arith
allowance-bound gone = omega arith
allowance-bound inert = omega arith
allowance-bound (live in_person c e none) = omega arith
allowance-bound (live in_person c e (some u)) = omega arith
allowance-bound (live link c e u) = omega arith

-- An in-person code is redeemed at most once: over any sequence of creations, withdrawals and
-- redemptions, on a table whose secrets are distinct, at most one redemption of a secret gives an
-- in-person card.
pub in_person_once :
    (secret : Bytes) (steps : List CardStep) (s : CardTable)
    → IsKeyed by_secret s
    → in_person_uses secret steps s ≤ 1
in_person_once secret steps s w =
    let h = run-allowance secret steps s w in
    let b = allowance-bound (standing secret s) in omega arith
