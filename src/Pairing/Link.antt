-- ===== src/Pairing/Link.antt =====
-- The completion of a link grant that came outside a pairing, in
-- core/crates/arveil-core/src/client.rs: the one row of `link_completion`.
use arveil.Base.{
  ℕ, ◌≤◌, ◌<◌, ◌≡◌, refl, ◌∙◌, Bool, true, false, not, ◌||◌, List, [], ◌∷◌, Option, none, some,
  Bytes, bytes_eq, ◌==◌, max, if◌then◌else◌, Bool-cases, inl, inr, arith, Result, ok, err,
}
use arveil.Client.{ClientError, grant_mismatch, invalid_completion_phase}
use arveil.Pairing.{PairingCompletionPhase, committing, to_db, from_db}

pub record LinkRow : Type 0 where
  pub credential : Bytes
  pub manifest : Bytes
  pub root_public : Bytes
  pub phase : ℕ

abbrev pub phase_or_error :
    ℕ → Option PairingCompletionPhase → Result ClientError PairingCompletionPhase
phase_or_error value none = err (invalid_completion_phase value)
phase_or_error value (some phase) = ok phase

-- `saved_… != …` of the three columns
abbrev pub is_other_grant : Bytes → Bytes → Bytes → LinkRow → Bool
is_other_grant credential manifest root r =
    not (bytes_eq r.credential credential)
    || not (bytes_eq r.manifest manifest)
    || not (bytes_eq r.root_public root)

unfoldable pub link_completion_begin :
    Bytes
    → Bytes
    → Bytes
    → Option LinkRow
    → Result ClientError PairingCompletionPhase × Option LinkRow
link_completion_begin credential manifest root_public none = (
  ok committing,
  some record {
    credential = credential;
    manifest = manifest;
    root_public = root_public;
    phase = to_db committing;
  },
)
link_completion_begin credential manifest root_public (some r) =
    if is_other_grant credential manifest root_public r
    then (err grant_mismatch, some r)
    else (phase_or_error r.phase (from_db r.phase), some r)

unfoldable pub optional_phase :
    Result ClientError PairingCompletionPhase → Result ClientError (Option PairingCompletionPhase)
optional_phase (ok phase) = ok (some phase)
optional_phase (err e) = err e

unfoldable pub link_completion_phase :
    Option LinkRow → Result ClientError (Option PairingCompletionPhase)
link_completion_phase none = ok none
link_completion_phase (some r) = optional_phase (phase_or_error r.phase (from_db r.phase))

unfoldable pub link_completion_advance :
    PairingCompletionPhase → Option LinkRow → Bool × Option LinkRow
link_completion_advance phase none = (false, none)
link_completion_advance phase (some r) =
    (true, some (record r { phase = max r.phase (to_db phase) }))

unfoldable pub link_completion_abort_if_unapplied : Option LinkRow → Bool × Option LinkRow
link_completion_abort_if_unapplied none = (false, none)
link_completion_abort_if_unapplied (some r) =
    if r.phase == to_db committing then (true, none) else (false, some r)

-- A call of an operation.
pub data LinkStep : Type 0 where
  begin : Bytes → Bytes → Bytes → LinkStep
  advance : PairingCompletionPhase → LinkStep
  abort : LinkStep

abbrev pub step : LinkStep → Option LinkRow → Option LinkRow
step (begin credential manifest root) s = (link_completion_begin credential manifest root s).1
step (advance phase) s = (link_completion_advance phase s).1
step abort s = (link_completion_abort_if_unapplied s).1

abbrev pub run : List LinkStep → Option LinkRow → Option LinkRow
run [] s = s
run (c ∷ steps) s = run steps (step c s)

-- The row holds the grant of `r`, at its phase or a later one.
abbrev pub Continues : LinkRow → Option LinkRow → Type 0
Continues r s =
    (q : LinkRow) × (s ≡ some q)
    × (q.credential ≡ r.credential)
    × (q.manifest ≡ r.manifest)
    × (q.root_public ≡ r.root_public)
    × (r.phase ≤ q.phase)

begin-keeps :
    (credential manifest root : Bytes) (q : LinkRow)
    → (link_completion_begin credential manifest root (some q)).1 ≡ some q
unfolding link_completion_begin
begin-keeps credential manifest root q =
    elim (Bool-cases (is_other_grant credential manifest root q)) [
      | inl o ↦ rw o refl
      | inr o ↦ rw o refl
    ]

abort-keeps :
    (q : LinkRow)
    → to_db committing < q.phase
    → (link_completion_abort_if_unapplied (some q)).1 ≡ some q
unfolding link_completion_abort_if_unapplied
abort-keeps q past =
    let later : (q.phase == to_db committing) ≡ false = ground arith in rw later refl

step-Continues :
    (r : LinkRow) (c : LinkStep) (s : Option LinkRow)
    → to_db committing < r.phase
    → Continues r s
    → Continues r (step c s)
unfolding link_completion_advance
step-Continues r (begin credential manifest root) s past (q, e, c, m, k, le) =
    (q, rw e (begin-keeps credential manifest root q), c, m, k, le)
step-Continues r (advance phase) s past (q, e, c, m, k, le) =
    (record q { phase = max q.phase (to_db phase) }, rw e refl, c, m, k, omega arith)
step-Continues r abort s past (q, e, c, m, k, le) =
    (q, rw e (abort-keeps q (omega arith)), c, m, k, le)

run-Continues :
    (r : LinkRow) (steps : List LinkStep) (s : Option LinkRow)
    → to_db committing < r.phase
    → Continues r s
    → Continues r (run steps s)
run-Continues r [] s past h = h
run-Continues r (c ∷ steps) s past h =
    run-Continues r steps (step c s) past (step-Continues r c s past h)

other_grant :
    (credential manifest root : Bytes) (r q : LinkRow)
    → q.credential ≡ r.credential
    → q.manifest ≡ r.manifest
    → q.root_public ≡ r.root_public
    → is_other_grant credential manifest root q ≡ is_other_grant credential manifest root r
other_grant credential manifest root r q c m k = rw c (rw m (rw k refl))

-- A link grant whose completion is past its first phase is never replaced or forgotten: after any
-- beginnings, advances and aborts, the row holds the same grant at the same phase or a later one,
-- and beginning with another grant is refused, with nothing changed.
pub grant_is_fixed :
    (credential manifest root : Bytes) (r : LinkRow) (steps : List LinkStep)
    → to_db committing < r.phase
    → Continues r (run steps (some r))
      × (is_other_grant credential manifest root r ≡ true
          → link_completion_begin credential manifest root (run steps (some r))
            ≡ (err grant_mismatch, run steps (some r)))
unfolding link_completion_begin
grant_is_fixed credential manifest root r steps past =
    let after = run-Continues r steps (some r) past (r, refl, refl, refl, refl, omega arith) in
    (
      after,
      λ other. rw (after.1) (
          rw (other_grant credential manifest root r after.0 after.2 after.3 after.4 ∙ other) refl),
    )
