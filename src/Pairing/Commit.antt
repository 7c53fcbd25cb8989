-- ===== src/Pairing/Commit.antt =====
-- Committing and cancelling a pairing exclude each other, in core/crates/arveil-core/src/client.rs.
use arveil.Base.{
  ℕ, ◌≡◌, ◌≢◌, refl, ◌∙◌, Bool, true, false, not, List, [], ◌∷◌, none, some, Bytes, bytes_eq,
  bytes_eq_refl, bytes_eq_iff, any, ◌==◌, Bool-cases, inl, inr, arith, All,
}
use arveil.Sql.{count_where, any-update_where, any-append}
use arveil.Sql.Tables.{by_blob, delete_where, at}
use arveil.Pairing.{
  PairingCompletionPhase, committing, to_db, already_committed, PairingSessionState, CompletionRow,
  PairingTables, by_session, by_completion, started, pairing_session_start, granted,
  pairing_session_ready, pairing_session_clear, is_ready, insert_or_ignore,
  pairing_completion_begin, advanced, pairing_completion_advance, pairing_session_cancel,
}

-- A call of an operation.
pub data PairingStep : Type 0 where
  start : Bytes → Bytes → ℕ → PairingStep
  ready : Bytes → Bytes → Bytes → Bytes → Bytes → PairingStep
  clear : Bytes → PairingStep
  begin : Bytes → PairingStep
  advance : Bytes → PairingCompletionPhase → PairingStep
  cancel : Bytes → PairingStep

abbrev pub step : PairingStep → PairingTables → PairingTables
step (start session code expires) s = pairing_session_start session code expires s
step (ready session sas credential manifest root) s =
    (pairing_session_ready session sas credential manifest root s).1
step (clear session) s = (pairing_session_clear session s).1
step (begin session) s = (pairing_completion_begin session s).1
step (advance session phase) s = (pairing_completion_advance session phase s).1
step (cancel session) s = (pairing_session_cancel session s).1

abbrev pub run : List PairingStep → PairingTables → PairingTables
run [] s = s
run (c ∷ steps) s = run steps (step c s)

-- No step clears the session.
abbrev pub KeepsSession : Bytes → PairingStep → Type 0
KeepsSession session (start other code expires) = Unit
KeepsSession session (ready other sas credential manifest root) = Unit
KeepsSession session (clear other) = bytes_eq other session ≡ false
KeepsSession session (begin other) = Unit
KeepsSession session (advance other phase) = Unit
KeepsSession session (cancel other) = Unit

-- No step starts the session again.
abbrev pub NotRestarted : Bytes → PairingStep → Type 0
NotRestarted session (start other code expires) = bytes_eq other session ≡ false
NotRestarted session (ready other sas credential manifest root) = Unit
NotRestarted session (clear other) = Unit
NotRestarted session (begin other) = Unit
NotRestarted session (advance other phase) = Unit
NotRestarted session (cancel other) = Unit

abbrev pub is_committed : Bytes → PairingTables → Bool
is_committed session s = any (at by_completion session) s.completion

abbrev pub is_stored : Bytes → PairingTables → Bool
is_stored session s = any (at by_session session) s.sessions

any-delete_other :
    {A : Type 0} (key : A → Bytes) (k other : Bytes) (s : List A)
    → bytes_eq other k ≡ false
    → any (at (by_blob key) k) (delete_where (at (by_blob key) other) s)
      ≡ any (at (by_blob key) k) s
any-delete_other key k other [] h = refl
any-delete_other key k other (r ∷ s) h = ground (
  arith,
  h,
  any-delete_other key k other s,
  bytes_eq_iff (key r) k,
  bytes_eq_iff (key r) other,
  bytes_eq_iff other k,
)

any-delete :
    {A : Type 0} (q p : A → Bool) (s : List A) → any q s ≡ false → any q (delete_where p s) ≡ false
any-delete q p [] h = refl
any-delete q p (r ∷ s) h = ground (arith, h, any-delete q p s)

any-delete_same : {A : Type 0} (q : A → Bool) (s : List A) → any q (delete_where q s) ≡ false
any-delete_same q [] = refl
any-delete_same q (r ∷ s) = ground (arith, any-delete_same q s)

count-any : {A : Type 0} (q : A → Bool) (s : List A) → (count_where q s == 0) ≡ not (any q s)
count-any q [] = refl
count-any q (r ∷ s) = ground (arith, count-any q s)

step-is_committed :
    (session : Bytes) (c : PairingStep) (s : PairingTables)
    → KeepsSession session c
    → is_committed session s ≡ true
    → is_committed session (step c s) ≡ true
unfolding pairing_session_start pairing_session_ready pairing_session_clear pairing_completion_begin
    insert_or_ignore pairing_completion_advance pairing_session_cancel
step-is_committed session (start other code expires) s k h = h
step-is_committed session (ready other sas credential manifest root) s k h = h
step-is_committed session (clear other) s k h =
    any-delete_other (λ r. r.session_id) session other s.completion k ∙ h
step-is_committed session (begin other) s k h = ground (
  arith,
  h,
  any-append (at by_completion session) s.completion
      (record { session_id = other; phase = to_db committing } ∷ []),
)
step-is_committed session (advance other phase) s k h =
    any-update_where (at by_completion session) (at by_completion other) (advanced phase)
      s.completion (λ r. refl)
    ∙ h
step-is_committed session (cancel other) s k h = ground (arith, h)

step-is_stored :
    (session : Bytes) (c : PairingStep) (s : PairingTables)
    → NotRestarted session c
    → is_stored session s ≡ false
    → is_stored session (step c s) ≡ false
unfolding pairing_session_start pairing_session_ready pairing_session_clear pairing_completion_begin
    pairing_completion_advance pairing_session_cancel
step-is_stored session (start other code expires) s k h =
    any-append (at by_session session) (delete_where (at by_session other) s.sessions)
      (started other code expires ∷ [])
    ∙ rw (any-delete (at by_session session) (at by_session other) s.sessions h) (rw k refl)
step-is_stored session (ready other sas credential manifest root) s k h =
    any-update_where (at by_session session) (at by_session other)
      (granted sas credential manifest root) s.sessions (λ r. refl)
    ∙ h
step-is_stored session (clear other) s k h =
    any-delete (at by_session session) (at by_session other) s.sessions h
step-is_stored session (begin other) s k h = ground (arith, h)
step-is_stored session (advance other phase) s k h = h
step-is_stored session (cancel other) s k h =
    ground (arith, h, any-delete (at by_session session) (at by_session other) s.sessions h)

run-is_committed :
    (session : Bytes) (steps : List PairingStep) (s : PairingTables)
    → All (KeepsSession session) steps
    → is_committed session s ≡ true
    → is_committed session (run steps s) ≡ true
run-is_committed session [] s k h = h
run-is_committed session (c ∷ steps) s k h =
    run-is_committed session steps (step c s) k.1 (step-is_committed session c s k.0 h)

run-is_stored :
    (session : Bytes) (steps : List PairingStep) (s : PairingTables)
    → All (NotRestarted session) steps
    → is_stored session s ≡ false
    → is_stored session (run steps s) ≡ false
run-is_stored session [] s k h = h
run-is_stored session (c ∷ steps) s k h =
    run-is_stored session steps (step c s) k.1 (step-is_stored session c s k.0 h)

any-insert_or_ignore :
    (session : Bytes) (s : List CompletionRow)
    → any (at by_completion session) (insert_or_ignore session s) ≡ true
unfolding insert_or_ignore
any-insert_or_ignore session s = elim (Bool-cases (any (at by_completion session) s)) [
  | inl e ↦ rw e e
  | inr e ↦
      let added =
        any-append (at by_completion session) s
          (record { session_id = session; phase = to_db committing } ∷ []) in
      rw e (added ∙ rw e (rw (bytes_eq_refl session) refl))
]

begin-is_committed :
    (session : Bytes) (phase : PairingCompletionPhase) (s : PairingTables)
    → (pairing_completion_begin session s).0 ≡ some phase
    → is_committed session (pairing_completion_begin session s).1 ≡ true
unfolding pairing_completion_begin
begin-is_committed session phase s h =
    elim (Bool-cases (count_where (is_ready session) s.sessions == 1)) [
      | inl e ↦ rw e (any-insert_or_ignore session s.completion)
      | inr e ↦ ground (arith, e, h)
    ]

-- Once a pairing has begun to commit it is not cancelled: after `pairing_completion_begin` has
-- answered with a phase, and after any operations that do not clear that session, cancelling it
-- answers that it is committed already, and changes nothing.
pub commit_excludes_cancel :
    (session : Bytes) (phase : PairingCompletionPhase) (steps : List PairingStep)
    (s : PairingTables)
    → (pairing_completion_begin session s).0 ≡ some phase
    → All (KeepsSession session) steps
    → pairing_session_cancel session (run steps (pairing_completion_begin session s).1)
      ≡ (already_committed, run steps (pairing_completion_begin session s).1)
unfolding pairing_session_cancel
commit_excludes_cancel session phase steps s h k =
    let t = run steps (pairing_completion_begin session s).1 in
    let held =
      run-is_committed session steps (pairing_completion_begin session s).1 k
        (begin-is_committed session phase s h) in
    rw (count-any (at by_completion session) t.completion) (rw held refl)

not_ready :
    (session : Bytes) (s : List PairingSessionState)
    → any (at by_session session) s ≡ false
    → count_where (is_ready session) s ≡ 0
not_ready session [] h = refl
not_ready session (r ∷ s) h = ground (arith, h, not_ready session s)

cancel-is_stored :
    (session : Bytes) (s : PairingTables)
    → (pairing_session_cancel session s).0 ≢ already_committed
    → is_stored session (pairing_session_cancel session s).1 ≡ false
unfolding pairing_session_cancel
cancel-is_stored session s h =
    elim (Bool-cases (count_where (at by_completion session) s.completion == 0)) [
      | inl e ↦ rw e (any-delete_same (at by_session session) s.sessions)
      | inr e ↦ absurd (h (rw e refl))
    ]

-- A cancelled pairing is not committed: after `pairing_session_cancel` has answered anything but
-- that the session is committed, and after any operations that do not start it again,
-- `pairing_completion_begin` gives no phase and changes nothing.
pub cancel_excludes_commit :
    (session : Bytes) (steps : List PairingStep) (s : PairingTables)
    → (pairing_session_cancel session s).0 ≢ already_committed
    → All (NotRestarted session) steps
    → pairing_completion_begin session (run steps (pairing_session_cancel session s).1)
      ≡ (none, run steps (pairing_session_cancel session s).1)
unfolding pairing_completion_begin
cancel_excludes_commit session steps s h k =
    let t = run steps (pairing_session_cancel session s).1 in
    let gone =
      run-is_stored session steps (pairing_session_cancel session s).1 k
        (cancel-is_stored session s h) in
    rw (not_ready session t.sessions gone) refl
