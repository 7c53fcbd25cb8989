-- ===== src/Cards/Standing.antt =====
-- What a card secret is worth, and the operations of core/crates/arveil-core/src/card_store.rs as
-- updates of a map from secrets to that.
use arveil.Base.{
  ℕ, ◌+◌, ◌≡◌, refl, ap, sym, ◌∙◌, Bool, true, false, Option, none, some, Bytes, bytes_eq,
  bytes_eq_iff, ltb, ◌==◌, if◌then◌else◌, Result, ok, err, arith, Bool-cases, Option-cases, inl,
  inr,
}
use arveil.Sql.Tables.{is_some, row_at, any-at, row_at-append}
use arveil.Client.{ClientError}
use arveil.Cards.{
  CardKind, in_person, link, as_str, parse, CardRow, CardTable, by_secret, OwnCard, validity,
  created, card_create, first_use,
}

-- A secret is unknown, can be redeemed, or was withdrawn; `inert` is a kind that no operation writes.
pub data Standing : Type 0 where
  unknown gone inert : Standing
  live : CardKind → ℕ → ℕ → Option ℕ → Standing

abbrev pub live_standing : CardRow → Option CardKind → Standing
live_standing r none = inert
live_standing r (some kind) = live kind r.created_at r.expires_at r.used_at

abbrev pub row_standing : Option CardRow → Standing
row_standing none = unknown
row_standing (some r) = if r.revoked == 0 then live_standing r (parse r.kind) else gone

abbrev pub standing : Bytes → CardTable → Standing
standing secret s = row_standing (row_at by_secret secret s)

-- The operations on one standing.
unfoldable pub issue : CardKind → ℕ → Standing → Bool × Standing
issue kind now unknown = (true, live kind now (now + validity kind) none)
issue kind now st = (false, st)

unfoldable pub revoke : Standing → Bool × Standing
revoke unknown = (false, unknown)
revoke gone = (false, gone)
revoke inert = (true, gone)
revoke (live kind c e u) = (true, gone)

abbrev pub taken : Bytes → CardKind → ℕ → ℕ → ℕ → OwnCard
taken secret kind c e u = record {
  secret = secret;
  kind = kind;
  created_at = c;
  expires_at = e;
  used_at = some u;
  revoked = false;
}

unfoldable pub redeem : Bytes → ℕ → Standing → Option OwnCard × Standing
redeem secret now (live in_person c e none) =
    if ltb now e
    then (some (taken secret in_person c e now), live in_person c e (some now))
    else (none, live in_person c e none)
redeem secret now (live link c e u) =
    if ltb now e
    then (some (taken secret link c e (first_use u now)), live link c e (some (first_use u now)))
    else (none, live link c e u)
redeem secret now st = (none, st)

abbrev pub is_ok : Result ClientError OwnCard → Bool
is_ok (ok _) = true
is_ok (err _) = false

issue-known :
    (kind : CardKind) (now : ℕ) (r : CardRow)
    → issue kind now (row_standing (some r)) ≡ (false, row_standing (some r))
unfolding issue
issue-known kind now r = elim (Bool-cases (r.revoked == 0)) [
  | inl e ↦ elim (Option-cases (parse r.kind)) [
    | inl none_e ↦ ground (arith, e, none_e)
    | inr (k, some_e) ↦ ground (arith, e, some_e)
  ]
  | inr e ↦ ground (arith, e)
]

parse-as_str : (kind : CardKind) → parse (as_str kind) ≡ some kind
unfolding parse as_str
parse-as_str in_person = refl
parse-as_str link = refl

same_secret : (a b : Bytes) (s : CardTable) → bytes_eq a b ≡ true → standing b s ≡ standing a s
same_secret a b s e = ap (λ k. standing k s) (sym ((bytes_eq_iff a b).0 e))

-- Whatever a standing was, the operation on a row of the secret gives what it says.
pub by_secret_cases :
    (secret other : Bytes) (s : CardTable) (new : Standing)
    → (bytes_eq secret other ≡ true → new ≡ standing secret s)
    → standing other s ≡ (if bytes_eq secret other then new else standing other s)
by_secret_cases secret other s new h = elim (Bool-cases (bytes_eq secret other)) [
  | inl e ↦ rw e (same_secret secret other s e ∙ sym (h e))
  | inr e ↦ rw e refl
]

created-standing :
    (secret other : Bytes) (kind : CardKind) (now : ℕ) (old : Option CardRow)
    → row_standing (if bytes_eq secret other then some (created secret kind now) else old) ≡ (
        if bytes_eq secret other
        then live kind now (now + validity kind) none
        else row_standing old)
created-standing secret other kind now old = elim (Bool-cases (bytes_eq secret other)) [
  | inl e ↦ rw e (rw (parse-as_str kind) refl)
  | inr e ↦ rw e refl
]

module _ (secret : Bytes) (s : CardTable) where
  pub card_create-standing :
      (kind : CardKind) (now : ℕ) (other : Bytes)
      → (is_ok (card_create (some secret) kind now s).0 ≡ (issue kind now (standing secret s)).0)
        × (standing other (card_create (some secret) kind now s).1 ≡ (
            if bytes_eq secret other
            then (issue kind now (standing secret s)).1
            else standing other s))
  unfolding card_create issue
  card_create-standing kind now other =
      let known = any-at by_secret secret s in
      elim (Option-cases (row_at by_secret secret s)) [
        | inl e ↦
            let fresh = known ∙ ap is_some e in
            let row = row_at-append by_secret other (created secret kind now) s fresh in
            (
              rw fresh (rw e refl),
              rw fresh (rw e (ap row_standing row ∙ created-standing secret other kind now _)),
            )
        | inr (r, e) ↦
            let stands = known ∙ ap is_some e in
            let old = issue-known kind now r in
            (
              rw stands (rw e (sym (ap (λ p. p.0) old))),
              rw stands (by_secret_cases secret other s _ (λ same. rw e (ap (λ p. p.1) old))),
            )
      ]
