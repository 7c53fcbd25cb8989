-- ===== src/Pairing/Phases.antt =====
-- The phases of a pairing's completion, in core/crates/arveil-core/src/client.rs.
use arveil.Base.{
  ℕ, ◌≤◌, ◌≡◌, refl, ap, sym, ◌∙◌, false, List, [], ◌∷◌, some, Bytes, bytes_eq, bytes_eq_iff, any,
  ◌==◌, ltb, max, Bool-cases, Option-cases, inl, inr, arith, All,
}
use arveil.Sql.{update_where, count_where}
use arveil.Sql.Tables.{
  is_some, map_option, delete_where, at, row_at, any-at, row_at-update_where, row_at-append,
}
use arveil.Pairing.{
  PairingCompletionPhase, committing, local_applied, realm_saved, endpoint_stored, realm_enrolled,
  mailbox_stored, key_packages_published, complete, to_db, from_db, CompletionRow, PairingTables,
  by_completion, pairing_session_start, pairing_session_ready, pairing_session_clear, is_ready,
  insert_or_ignore, stored_phase, pairing_completion_phase, pairing_completion_begin, advanced,
  pairing_completion_advance, pairing_session_cancel,
}
use arveil.Pairing.Commit.{
  PairingStep, start, ready, clear, begin, advance, cancel, step, run, KeepsSession,
}

-- A phase reads back from what is stored of it.
pub from_db-to_db : (phase : PairingCompletionPhase) → from_db (to_db phase) ≡ some phase
unfolding from_db to_db
from_db-to_db committing = refl
from_db-to_db local_applied = refl
from_db-to_db realm_saved = refl
from_db-to_db endpoint_stored = refl
from_db-to_db realm_enrolled = refl
from_db-to_db mailbox_stored = refl
from_db-to_db key_packages_published = refl
from_db-to_db complete = refl

from_db-inverse :
    (n : ℕ) (phase : PairingCompletionPhase) → from_db n ≡ some phase → n ≡ to_db phase
unfolding from_db to_db
from_db-inverse n phase h = ground (arith, h)

-- The row of the session holds a phase that is no earlier than `p`.
abbrev Reached : Bytes → PairingCompletionPhase → List CompletionRow → Type 0
Reached session p s =
    (r : CompletionRow) × (q : PairingCompletionPhase) × (row_at by_completion session s ≡ some r)
    × (r.phase ≡ to_db q)
    × (to_db p ≤ to_db q)

max-phase :
    (p q : PairingCompletionPhase)
    → (k : PairingCompletionPhase) × (max (to_db p) (to_db q) ≡ to_db k) × (to_db p ≤ to_db k)
max-phase p q = elim (Bool-cases (ltb (to_db p) (to_db q))) [
  | inl e ↦ (q, ground arith, ground arith)
  | inr e ↦ (p, ground arith, ground arith)
]

advance-Reached :
    (session other : Bytes) (p k : PairingCompletionPhase) (s : List CompletionRow)
    → Reached session p s
    → Reached session p (update_where (at by_completion other) (advanced k) s)
unfolding to_db
advance-Reached session other p k s (r, q, found, h, le) =
    let there =
      row_at-update_where by_completion (at by_completion other) (advanced k) (λ x. refl) session s
      ∙ ap (map_option _) found in
    let both = max-phase q k in
    elim (Bool-cases (bytes_eq r.session_id other)) [
      | inl e ↦ (
        advanced k r,
        both.0,
        there ∙ rw e refl,
        ap (λ n. max n (to_db k)) h ∙ both.1,
        omega (arith, le, both.2),
      )
      | inr e ↦ (r, q, there ∙ rw e refl, h, le)
    ]

insert-Reached :
    (session other : Bytes) (p : PairingCompletionPhase) (s : List CompletionRow)
    → Reached session p s
    → Reached session p (insert_or_ignore other s)
unfolding insert_or_ignore
insert-Reached session other p s (r, q, found, h, le) =
    elim (Bool-cases (any (at by_completion other) s)) [
      | inl e ↦ rw e (r, q, found, h, le)
      | inr e ↦ elim (Bool-cases (bytes_eq other session)) [
        | inl same ↦
            let held = any-at by_completion session s ∙ ap is_some found in
            ground (
              arith,
              e,
              held,
              ap (λ i. any (at by_completion i) s) ((bytes_eq_iff other session).0 same),
            )
        | inr differs ↦ rw e (
          r,
          q,
          row_at-append by_completion session
                (record { session_id = other; phase = to_db committing }) s e
              ∙ rw differs found,
          h,
          le,
        )
      ]
    ]

row_at-delete_other :
    (k other : Bytes) (s : List CompletionRow)
    → bytes_eq other k ≡ false
    → row_at by_completion k (delete_where (at by_completion other) s) ≡ row_at by_completion k s
row_at-delete_other k other [] h = refl
row_at-delete_other k other (r ∷ s) h = ground (
  arith,
  h,
  row_at-delete_other k other s,
  bytes_eq_iff r.session_id k,
  bytes_eq_iff r.session_id other,
  bytes_eq_iff other k,
)

begin-Reached :
    (session other : Bytes) (p : PairingCompletionPhase) (s : PairingTables)
    → Reached session p s.completion
    → Reached session p (pairing_completion_begin other s).1.completion
unfolding pairing_completion_begin
begin-Reached session other p s h =
    elim (Bool-cases (count_where (is_ready other) s.sessions == 1)) [
      | inl e ↦ rw e (insert-Reached session other p s.completion h)
      | inr e ↦ rw e h
    ]

cancel-Reached :
    (session other : Bytes) (p : PairingCompletionPhase) (s : PairingTables)
    → Reached session p s.completion
    → Reached session p (pairing_session_cancel other s).1.completion
unfolding pairing_session_cancel
cancel-Reached session other p s h =
    elim (Bool-cases (count_where (at by_completion other) s.completion == 0)) [
      | inl e ↦ rw e h
      | inr e ↦ rw e h
    ]

step-Reached :
    (session : Bytes) (p : PairingCompletionPhase) (c : PairingStep) (s : PairingTables)
    → KeepsSession session c
    → Reached session p s.completion
    → Reached session p (step c s).completion
unfolding pairing_session_start pairing_session_ready pairing_session_clear
    pairing_completion_advance
step-Reached session p (start other code expires) s k h = h
step-Reached session p (ready other sas credential manifest root) s k h = h
step-Reached session p (clear other) s k (r, q, found, h, le) =
    (r, q, row_at-delete_other session other s.completion k ∙ found, h, le)
step-Reached session p (begin other) s k h = begin-Reached session other p s h
step-Reached session p (advance other phase) s k h =
    advance-Reached session other p phase s.completion h
step-Reached session p (cancel other) s k h = cancel-Reached session other p s h

run-Reached :
    (session : Bytes) (p : PairingCompletionPhase) (steps : List PairingStep) (s : PairingTables)
    → All (KeepsSession session) steps
    → Reached session p s.completion
    → Reached session p (run steps s).completion
run-Reached session p [] s k h = h
run-Reached session p (c ∷ steps) s k h =
    run-Reached session p steps (step c s) k.1 (step-Reached session p c s k.0 h)

phase-Reached :
    (session : Bytes) (p : PairingCompletionPhase) (s : PairingTables)
    → pairing_completion_phase session s ≡ some p
    → Reached session p s.completion
unfolding pairing_completion_phase stored_phase
phase-Reached session p s h = elim (Option-cases (row_at by_completion session s.completion)) [
  | inl e ↦ ground (arith, e, h)
  | inr (r, e) ↦
      let read : from_db r.phase ≡ some p = ap stored_phase (sym e) ∙ h in
      (r, p, e, from_db-inverse r.phase p read, omega arith)
]

-- A stale retry cannot take a completion back: where a session has reached a phase, it has a phase
-- that is no earlier after any operations that do not clear that session, begins, advances to
-- earlier phases and cancellations included.
pub phase_never_regresses :
    (session : Bytes) (p : PairingCompletionPhase) (steps : List PairingStep) (s : PairingTables)
    → pairing_completion_phase session s ≡ some p
    → All (KeepsSession session) steps
    → (q : PairingCompletionPhase) × (pairing_completion_phase session (run steps s) ≡ some q)
      × (to_db p ≤ to_db q)
unfolding pairing_completion_phase stored_phase
phase_never_regresses session p steps s h k =
    let after = run-Reached session p steps s k (phase-Reached session p s h) in
    (after.1, rw (after.2) (ap from_db after.3 ∙ from_db-to_db after.1), after.4)
