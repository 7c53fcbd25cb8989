-- ===== src/Cards/Links.antt =====
-- How long a shared link of core/crates/arveil-core/src/card_store.rs works, and that a withdrawn
-- card does not work again.
use arveil.Base.{
  ℕ, ◌+◌, ◌<◌, ◌≡◌, ◌≢◌, ◌==◌, refl, ap, ◌∙◌, true, false, List, [], ◌∷◌, Option, none, some, Bytes,
  bytes_eq, bytes_eq_refl, any, All, ltb, arith, Bool-cases, Option-cases, inl, inr,
}
use arveil.Sql.Tables.{at, IsKeyed, any-at}
use arveil.Cards.{
  CardRow, parse, link, CardTable, by_secret, link_seconds, first_use, card_create, card_revoke,
  card_redeem,
}
use arveil.Cards.Standing.{
  Standing, row_standing, unknown, gone, inert, live, standing, issue, revoke, redeem, taken,
  card_create-standing,
}
use arveil.Cards.Refine.{
  card_revoke-standing, card_redeem-standing, card_create-IsKeyed, card_revoke-IsKeyed,
}
use arveil.Sql.Tables.{absent, row_at}
use arveil.Cards.Redeem.{
  CardStep, create, withdraw, spend, step, run, standing_step, step-standing, step-IsKeyed,
}

-- No step withdraws the secret.
abbrev pub Spares : Bytes → CardStep → Type 0
Spares secret (create other kind now) = Unit
Spares secret (withdraw other) = bytes_eq other secret ≡ false
Spares secret (spend other now) = Unit

-- A shared link with some uses behind it.
abbrev IsLink : ℕ → ℕ → Standing → Type 0
IsLink c e st = (u : Option ℕ) × (st ≡ live link c e u)

redeem-IsLink :
    (secret : Bytes) (now c e : ℕ) (st : Standing)
    → IsLink c e st
    → IsLink c e (redeem secret now st).1
unfolding redeem
redeem-IsLink secret now c e st (u, h) = rw h (elim (Bool-cases (ltb now e)) [
  | inl l ↦ rw l (some (first_use u now), refl)
  | inr l ↦ rw l (u, refl)
])

step-IsLink :
    (secret : Bytes) (c e : ℕ) (k : CardStep) (st : Standing)
    → Spares secret k
    → IsLink c e st
    → IsLink c e (standing_step secret k st)
unfolding issue
step-IsLink secret c e (create none kind now) st spares l = l
step-IsLink secret c e (create (some other) kind now) st spares (u, h) =
    rw h (elim (Bool-cases (bytes_eq other secret)) [
      | inl q ↦ rw q (u, refl)
      | inr q ↦ rw q (u, refl)
    ])
step-IsLink secret c e (withdraw other) st spares l = rw spares l
step-IsLink secret c e (spend other now) st spares l = elim (Bool-cases (bytes_eq other secret)) [
  | inl q ↦ rw q (redeem-IsLink other now c e st l)
  | inr q ↦ rw q l
]

run-IsLink :
    (secret : Bytes) (c e : ℕ) (steps : List CardStep) (s : CardTable)
    → IsKeyed by_secret s
    → All (Spares secret) steps
    → IsLink c e (standing secret s)
    → IsLink c e (standing secret (run steps s))
run-IsLink secret c e [] s w spares l = l
run-IsLink secret c e (k ∷ steps) s w spares l =
    run-IsLink secret c e steps (step k s) (step-IsKeyed k s w) spares.1
      (rw (step-standing secret k s w) (step-IsLink secret c e k _ spares.0 l))

redeem-link :
    (secret : Bytes) (now c e : ℕ) (st : Standing)
    → IsLink c e st
    → now < e
    → (v : ℕ) × ((redeem secret now st).0 ≡ some (taken secret link c e v))
unfolding redeem
redeem-link secret now c e st (u, h) early =
    let l : ltb now e ≡ true = ground arith in rw h (rw l (first_use u now, refl))

-- A shared link keeps working: after it was made with a new secret, and after any sequence of
-- operations that does not withdraw it, its secret is redeemed, as that link, at any time before
-- its thirty days are over.
pub link_keeps_working :
    (secret : Bytes) (made now : ℕ) (steps : List CardStep) (s : CardTable)
    → IsKeyed by_secret s
    → any (at by_secret secret) s ≡ false
    → All (Spares secret) steps
    → now < made + link_seconds
    → (v : ℕ) × ((card_redeem secret now (run steps (card_create (some secret) link made s).1)).0
        ≡ some (taken secret link made (made + link_seconds) v))
unfolding issue
link_keeps_working secret made now steps s w fresh spares early =
    let t = (card_create (some secret) link made s).1 in
    let unknown_now : standing secret s ≡ unknown =
      ap row_standing (absent by_secret secret s fresh) in
    let first : standing secret t ≡ live link made (made + link_seconds) none =
      (card_create-standing secret s link made secret).1
      ∙ rw (bytes_eq_refl secret) (rw unknown_now refl) in
    let after =
      run-IsLink secret made (made + link_seconds) steps t
        (card_create-IsKeyed (some secret) link made s w) spares (none, first) in
    rw ((card_redeem-standing secret [] (run steps t) now).0)
      (redeem-link secret now made _ _ after early)

gone-stays : (secret : Bytes) (k : CardStep) → standing_step secret k gone ≡ gone
unfolding issue revoke redeem
gone-stays secret (create none kind now) = refl
gone-stays secret (create (some other) kind now) = elim (Bool-cases (bytes_eq other secret)) [
  | inl e ↦ rw e refl
  | inr e ↦ rw e refl
]
gone-stays secret (withdraw other) = elim (Bool-cases (bytes_eq other secret)) [
  | inl e ↦ rw e refl
  | inr e ↦ rw e refl
]
gone-stays secret (spend other now) = elim (Bool-cases (bytes_eq other secret)) [
  | inl e ↦ rw e refl
  | inr e ↦ rw e refl
]

run-gone :
    (secret : Bytes) (steps : List CardStep) (s : CardTable)
    → IsKeyed by_secret s
    → standing secret s ≡ gone
    → standing secret (run steps s) ≡ gone
run-gone secret [] s w g = g
run-gone secret (k ∷ steps) s w g =
    run-gone secret steps (step k s) (step-IsKeyed k s w)
      (step-standing secret k s w ∙ rw g (gone-stays secret k))

revoke-known : (st : Standing) → st ≢ unknown → (revoke st).1 ≡ gone
unfolding revoke
revoke-known unknown h = absurd (h refl)
revoke-known gone h = refl
revoke-known inert h = refl
revoke-known (live k c e u) h = refl

known : (r : CardRow) → row_standing (some r) ≢ unknown
known r = elim (Bool-cases (r.revoked == 0)) [
  | inl e ↦ elim (Option-cases (parse r.kind)) [
    | inl none_e ↦ rw e (rw none_e (λ h. ground arith))
    | inr (k, some_e) ↦ rw e (rw some_e (λ h. ground arith))
  ]
  | inr e ↦ rw e (λ h. ground arith)
]

stands :
    (secret : Bytes) (s : CardTable)
    → any (at by_secret secret) s ≡ true
    → standing secret s ≢ unknown
stands secret s h = elim (Option-cases (row_at by_secret secret s)) [
  | inl e ↦ ground (arith, e, h, any-at by_secret secret s)
  | inr (r, e) ↦ rw e (known r)
]

-- A card that was withdrawn is never redeemed again: after `card_revoke` of a secret that the table
-- holds, whatever operations follow, redeeming it gives nothing at any time.
withdrawn_for_good :
    (secret : Bytes) (now : ℕ) (steps : List CardStep) (s : CardTable)
    → IsKeyed by_secret s
    → any (at by_secret secret) s ≡ true
    → (card_redeem secret now (run steps (card_revoke secret s).1)).0 ≡ none
unfolding redeem
withdrawn_for_good secret now steps s w held =
    let t = (card_revoke secret s).1 in
    let first : standing secret t ≡ gone =
      (card_revoke-standing secret secret s w).1
      ∙ rw (bytes_eq_refl secret) (revoke-known (standing secret s) (stands secret s held)) in
    let after = run-gone secret steps t (card_revoke-IsKeyed secret [] s w) first in
    rw ((card_redeem-standing secret [] (run steps t) now).0) (rw after refl)
