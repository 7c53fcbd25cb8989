-- ===== src/Cards/Shared.antt =====
-- The list of shared links of core/crates/arveil-core/src/card_store.rs.
use arveil.Base.{
  ℕ, ◌≡◌, refl, ap, ◌∙◌, Bool, true, false, ◌&&◌, ◌||◌, String, str_eq, str_eq_iff, List, [], ◌∷◌,
  Option, none, some, Bytes, bytes_eq, any, ltb, ◌==◌, if◌then◌else◌, map, arith, Bool-cases,
  Option-cases, inl, inr,
}
use arveil.Sql.{select}
use arveil.Sql.Tables.{
  at, row_at, IsKeyed, any-at, kept_if, is_some, row_at-select, order_by, any-order_by,
}
use arveil.Cards.{
  CardKind, in_person, link, parse, CardRow, CardTable, by_secret, own_card, is_shared, newest_card,
  cards_shared,
}
use arveil.Cards.Standing.{Standing, gone, live, live_standing, row_standing, standing}

any-own_card :
    (secret : Bytes) (rows : List CardRow)
    → any (λ c. bytes_eq c.secret secret) (map own_card rows) ≡ any (at by_secret secret) rows
any-own_card secret [] = refl
any-own_card secret (r ∷ rows) = ap (λ b. bytes_eq r.secret secret || b) (any-own_card secret rows)

-- A link that can still be redeemed.
unfoldable pub is_working : ℕ → Standing → Bool
is_working now (live link c e u) = ltb now e
is_working now st = false

is_link : Option CardKind → Bool
is_link none = false
is_link (some in_person) = false
is_link (some link) = true

str_eq-link : (s : String) → str_eq s "link" ≡ is_link (parse s)
unfolding parse is_link
str_eq-link s = elim (Bool-cases (str_eq s "in-person")) [
  | inl e ↦ rw ((str_eq_iff s "in-person").0 e) refl
  | inr e ↦ elim (Bool-cases (str_eq s "link")) [
    | inl l ↦ rw e (rw l refl)
    | inr l ↦ rw e (rw l refl)
  ]
]

kind-is_working :
    (now : ℕ) (r : CardRow) (o : Option CardKind)
    → is_link o && r.revoked == 0 && ltb now r.expires_at
      ≡ is_working now (if r.revoked == 0 then live_standing r o else gone)
unfolding is_working is_link
kind-is_working now r none = ground arith
kind-is_working now r (some in_person) = ground arith
kind-is_working now r (some link) = ground arith

is_some-if : (c : CardRow → Bool) (r : CardRow) → is_some (kept_if c (some r)) ≡ c r
is_some-if c r = elim (Bool-cases (c r)) [ inl e ↦ rw e refl | inr e ↦ rw e refl ]

row-is_working :
    (now : ℕ) (r : CardRow)
    → is_some (kept_if (is_shared now) (some r)) ≡ is_working now (row_standing (some r))
row-is_working now r =
    is_some-if (is_shared now) r
    ∙ ap (λ b. b && r.revoked == 0 && ltb now r.expires_at) (str_eq-link r.kind)
    ∙ kind-is_working now r (parse r.kind)

-- The list of shared links holds a secret exactly if that secret is a link that can be redeemed now:
-- made as a link, not withdrawn and not over, on a table whose secrets are distinct.
pub cards_shared_lem :
    (secret : Bytes) (now : ℕ) (s : CardTable)
    → IsKeyed by_secret s
    → any (λ c. bytes_eq c.secret secret) (cards_shared now s) ≡ is_working now (standing secret s)
unfolding cards_shared is_working
cards_shared_lem secret now s w =
    any-own_card secret (order_by newest_card (select (is_shared now) s))
    ∙ any-order_by (at by_secret secret) newest_card (select (is_shared now) s)
    ∙ any-at by_secret secret (select (is_shared now) s)
    ∙ ap is_some (row_at-select by_secret secret (is_shared now) s w)
    ∙ elim (Option-cases (row_at by_secret secret s)) [
      | inl e ↦ rw e refl
      | inr (r, e) ↦ rw e (row-is_working now r)
    ]
