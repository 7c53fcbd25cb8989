-- ===== src/Cards/Refine.antt =====
-- The card operations of core/crates/arveil-core/src/card_store.rs as updates of a map from secrets to
-- standings.
use arveil.Base.{
  ℕ, ◌≡◌, refl, ap, sym, ◌∙◌, Bool, true, false, Option, none, some, Bytes, bytes_eq, bytes_eq_iff,
  any, ◌==◌, if◌then◌else◌, err, arith, Bool-cases, Option-cases, inl, inr,
}
use arveil.Sql.{update_where}
use arveil.Sql.Tables.{
  is_some, map_option, at, row_at, IsKeyed, kept_if, count_where-at, row_at-update_where,
  row_at-key, append-IsKeyed, update_where-IsKeyed,
}
use arveil.Identity.{random}
use arveil.Client.{identity}
use arveil.Cards.{
  CardKind, in_person, link, parse, CardRow, CardTable, by_secret, OwnCard, created, card_create,
  is_live, withdrawn, card_revoke, used, redeemed, settled, spend, card_redeem,
}
use arveil.Cards.Standing.{
  card_create-standing, gone, Standing, live_standing, row_standing, standing, issue, revoke,
  redeem, is_ok, by_secret_cases,
}

-- An update of the rows of one secret that keeps secrets.
update-standing :
    (p : CardRow → Bool) (f : CardRow → CardRow) (new : Standing) (secret other : Bytes)
    (s : CardTable)
    → ((r : CardRow) → (f r).secret ≡ r.secret)
    → ((r : CardRow) → bytes_eq r.secret secret ≡ false → p r ≡ false)
    → row_standing (map_option (λ r. if p r then f r else r) (row_at by_secret secret s)) ≡ new
    → standing other (update_where p f s)
      ≡ (if bytes_eq secret other then new else standing other s)
update-standing p f new secret other s keeps only step =
    ap row_standing (row_at-update_where by_secret p f keeps other s)
    ∙ elim (Bool-cases (bytes_eq secret other)) [
      | inl e ↦ rw e (rw (sym ((bytes_eq_iff secret other).0 e)) step)
      | inr e ↦ rw e (elim (Option-cases (row_at by_secret other s)) [
        | inl none_e ↦ rw none_e refl
        | inr (r, some_e) ↦
            let key = row_at-key by_secret other s r some_e in
            let differs : bytes_eq r.secret secret ≡ false =
              ground (arith, key, e, bytes_eq_iff r.secret secret, bytes_eq_iff secret other) in
            rw some_e (rw (only r differs) refl)
      ])
    ]

-- The row that is found is the one that an update by its secret changes.
found :
    (secret : Bytes) (s : CardTable) (r : CardRow)
    → row_at by_secret secret s ≡ some r
    → bytes_eq r.secret secret ≡ true
found secret s r e = (bytes_eq_iff r.secret secret).1 (row_at-key by_secret secret s r e)

as_count : (b : Bool) → ((if b then 1 else 0) == 1) ≡ b
as_count true = refl
as_count false = refl

revoke-row :
    (r : CardRow)
    → (row_standing (some (if r.revoked == 0 then withdrawn r else r))
        ≡ (revoke (row_standing (some r))).1)
      × (is_some (kept_if (λ q. q.revoked == 0) (some r)) ≡ (revoke (row_standing (some r))).0)
unfolding revoke
revoke-row r = elim (Bool-cases (r.revoked == 0)) [
  | inl e ↦ elim (Option-cases (parse r.kind)) [
    | inl none_e ↦ rw e (rw none_e (refl, refl))
    | inr (k, some_e) ↦ rw e (rw some_e (refl, refl))
  ]
  | inr e ↦ rw e (rw e (refl, refl))
]

-- The standing of a row whose kind has been read.
abbrev of_kind : CardRow → Option CardKind → Standing
of_kind r o = if r.revoked == 0 then live_standing r o else gone

redeem-kind :
    (secret : Bytes) (now : ℕ) (r : CardRow) (o : Option CardKind)
    → (redeemed now secret r o ≡ (redeem secret now (of_kind r o)).0)
      × (of_kind (if is_some (redeemed now secret r o) then used now r else r) o
          ≡ (redeem secret now (of_kind r o)).1)
unfolding redeemed redeem
redeem-kind secret now r none = elim (Bool-cases (r.revoked == 0)) [
  | inl e ↦ rw e (refl, refl)
  | inr e ↦ rw e (refl, refl)
]
redeem-kind secret now r (some in_person) = elim (Option-cases r.used_at) [
  | inl none_e ↦ (ground (arith, none_e), ground (arith, none_e))
  | inr (u, some_e) ↦ (ground (arith, some_e), ground (arith, some_e))
]
redeem-kind secret now r (some link) = elim (Option-cases r.used_at) [
  | inl none_e ↦ (ground (arith, none_e), ground (arith, none_e))
  | inr (u, some_e) ↦ (ground (arith, some_e), ground (arith, some_e))
]

redeem-row :
    (secret : Bytes) (now : ℕ) (r : CardRow)
    → (redeemed now secret r (parse r.kind) ≡ (redeem secret now (row_standing (some r))).0)
      × (row_standing
            (some (if is_some (redeemed now secret r (parse r.kind)) then used now r else r))
          ≡ (redeem secret now (row_standing (some r))).1)
redeem-row secret now r =
    let both = redeem-kind secret now r (parse r.kind) in
    (
      both.0,
      elim (Bool-cases (is_some (redeemed now secret r (parse r.kind)))) [
        | inl e ↦ rw e refl
        | inr e ↦ rw e refl
      ]
          ∙ both.1,
    )

module _ (secret other : Bytes) (s : CardTable) where
  pub card_revoke-standing :
      IsKeyed by_secret s
      → ((card_revoke secret s).0 ≡ (revoke (standing secret s)).0)
        × (standing other (card_revoke secret s).1
            ≡ (if bytes_eq secret other then (revoke (standing secret s)).1 else standing other s))
  unfolding card_revoke revoke
  card_revoke-standing w = (
    ap (λ n. n == 1) (count_where-at by_secret secret (λ r. r.revoked == 0) s w)
        ∙ as_count _
        ∙ elim (Option-cases (row_at by_secret secret s)) [
          | inl e ↦ rw e refl
          | inr (r, e) ↦ rw e ((revoke-row r).1)
        ],
    update-standing (is_live secret) withdrawn _ secret other s (λ r. refl)
        (λ r e. ground (arith, e))
        (elim (Option-cases (row_at by_secret secret s)) [
          | inl e ↦ rw e refl
          | inr (r, e) ↦ rw e (rw (found secret s r e) ((revoke-row r).0))
        ]),
  )

  pub card_redeem-standing :
      (now : ℕ)
      → ((card_redeem secret now s).0 ≡ (redeem secret now (standing secret s)).0)
        × (standing other (card_redeem secret now s).1 ≡ (
            if bytes_eq secret other
            then (redeem secret now (standing secret s)).1
            else standing other s))
  unfolding card_redeem spend settled redeem
  card_redeem-standing now = elim (Option-cases (row_at by_secret secret s)) [
    | inl e ↦ rw e (refl, by_secret_cases secret other s _ (λ same. rw e refl))
    | inr (r, e) ↦
        let both = redeem-row secret now r in
        let change =
          λ (o : Option OwnCard). row_standing (some (if is_some o then used now r else r)) in
        elim (Option-cases (redeemed now secret r (parse r.kind))) [
          | inl none_e ↦ rw e (
              rw none_e (
                sym none_e ∙ both.0,
                by_secret_cases secret other s _
                    (λ same. sym both.1 ∙ ap change none_e ∙ sym (ap row_standing e)),
              ))
          | inr (c, some_e) ↦ rw e (
              rw some_e (
                sym some_e ∙ both.0,
                update-standing (at by_secret secret) (used now) _ secret other s (λ r. refl)
                    (λ r e. e) (rw e (rw (found secret s r e) (sym (ap change some_e) ∙ both.1))),
              ))
        ]
  ]

  pub card_redeem-IsKeyed :
      (now : ℕ) → IsKeyed by_secret s → IsKeyed by_secret (card_redeem secret now s).1
  unfolding card_redeem spend settled
  card_redeem-IsKeyed now w = elim (Option-cases (row_at by_secret secret s)) [
    | inl e ↦ rw e w
    | inr (r, e) ↦ elim (Option-cases (redeemed now secret r (parse r.kind))) [
      | inl none_e ↦ rw e (rw none_e w)
      | inr (c, some_e) ↦ rw e (
          rw some_e
            (update_where-IsKeyed by_secret (at by_secret secret) (used now) (λ r. refl) s w))
    ]
  ]

  pub card_revoke-IsKeyed : IsKeyed by_secret s → IsKeyed by_secret (card_revoke secret s).1
  unfolding card_revoke
  card_revoke-IsKeyed w = update_where-IsKeyed by_secret (is_live secret) withdrawn (λ r. refl) s w

pub card_create-IsKeyed :
    (secret : Option Bytes) (kind : CardKind) (now : ℕ) (s : CardTable)
    → IsKeyed by_secret s
    → IsKeyed by_secret (card_create secret kind now s).1
unfolding card_create
card_create-IsKeyed none kind now s w = w
card_create-IsKeyed (some secret) kind now s w = elim (Bool-cases (any (at by_secret secret) s)) [
  | inl e ↦ rw e w
  | inr e ↦ rw e (append-IsKeyed by_secret (created secret kind now) s e w)
]

-- The card operations are updates of a map from secrets to standings: on a table whose secrets are
-- distinct, making, withdrawing and redeeming a card answer what `issue`, `revoke` and `redeem`
-- answer on the standing of its secret, leave that secret with the standing that these give, and
-- every other secret as it was; a card without a random secret is not made.
pub operations_refine :
    (secret other : Bytes) (kind : CardKind) (now : ℕ) (s : CardTable)
    → IsKeyed by_secret s
    → ((is_ok (card_create (some secret) kind now s).0 ≡ (issue kind now (standing secret s)).0)
        × (standing other (card_create (some secret) kind now s).1 ≡ (
            if bytes_eq secret other
            then (issue kind now (standing secret s)).1
            else standing other s)))
      × (card_create none kind now s ≡ (err (identity random), s))
      × (((card_revoke secret s).0 ≡ (revoke (standing secret s)).0)
          × (standing other (card_revoke secret s).1 ≡ (
              if bytes_eq secret other then (revoke (standing secret s)).1 else standing other s)))
      × (((card_redeem secret now s).0 ≡ (redeem secret now (standing secret s)).0)
          × (standing other (card_redeem secret now s).1 ≡ (
              if bytes_eq secret other
              then (redeem secret now (standing secret s)).1
              else standing other s)))
unfolding card_create
operations_refine secret other kind now s w = (
  card_create-standing secret s kind now other,
  refl,
  card_revoke-standing secret other s w,
  card_redeem-standing secret other s now,
)
