-- ===== src/Pairing/Tests.antt =====
-- Runs of a pairing, and the theorems at concrete inputs.
use arveil.Base.{
  ℕ, ◌≡◌, ◌≢◌, ◌≤◌, refl, Bool, true, false, List, [], ◌∷◌, Option, none, some, Bytes, arith, ok,
  err,
}
use arveil.Client.{grant_mismatch}
use arveil.Pairing.{
  PairingCompletionPhase, committing, realm_saved, local_applied, to_db, cancelled, missing,
  already_committed, PairingTables, CompletionRow, started, granted, pairing_session_start,
  pairing_session_ready, pairing_completion_phase, pairing_completion_begin, pairing_session_cancel,
}
use arveil.Pairing.Commit.{
  ready, begin, advance, cancel, run, commit_excludes_cancel, cancel_excludes_commit,
}
use arveil.Pairing.Phases.{phase_never_regresses}
use arveil.Pairing.Link.{
  LinkRow, Continues, abort, link_completion_begin, is_other_grant, grant_is_fixed,
}
use arveil.Pairing.Link.{advance as link_advance}
use arveil.Pairing.Link.{begin as link_begin}
use arveil.Pairing.Link.{run as link_run}

abbrev session : Bytes
session = 1 ∷ []

-- A session with its grant.
abbrev open_session : PairingTables
open_session = record {
  sessions = granted (2 ∷ []) (3 ∷ []) (4 ∷ []) (5 ∷ []) (started session (9 ∷ []) 60) ∷ [];
  completion = [];
}

abbrev saved : PairingTables
saved = record { sessions = []; completion = record { session_id = session; phase = 3 } ∷ [] }

begins : (pairing_completion_begin session open_session).0 ≡ some committing
unfolding pairing_completion_begin arveil.Pairing.insert_or_ignore arveil.Pairing.stored_phase
    arveil.Pairing.from_db to_db arveil.Base.bytes_eq
begins = refl

cancels : (pairing_session_cancel session open_session).0 ≡ cancelled
unfolding pairing_session_cancel arveil.Base.bytes_eq
cancels = refl

saved_phase : pairing_completion_phase session saved ≡ some realm_saved
unfolding pairing_completion_phase arveil.Pairing.stored_phase arveil.Pairing.from_db
    arveil.Base.bytes_eq
saved_phase = refl

commit_excludes_cancel_example :
    pairing_session_cancel session (
      run
        (cancel session ∷ advance session realm_saved ∷ [])
        (pairing_completion_begin session open_session).1)
    ≡ (
      already_committed,
      run
          (cancel session ∷ advance session realm_saved ∷ [])
          (pairing_completion_begin session open_session).1,
    )
commit_excludes_cancel_example =
    commit_excludes_cancel session committing (cancel session ∷ advance session realm_saved ∷ [])
      open_session begins (tt, (tt, tt))

cancel_excludes_commit_example :
    pairing_completion_begin session
      (run (ready session [] [] [] [] ∷ []) (pairing_session_cancel session open_session).1)
    ≡ (none, run (ready session [] [] [] [] ∷ []) (pairing_session_cancel session open_session).1)
cancel_excludes_commit_example =
    cancel_excludes_commit session (ready session [] [] [] [] ∷ []) open_session
      (λ h. ground (arith, cancels, h)) (tt, tt)

phase_never_regresses_example :
    (q : PairingCompletionPhase) × (pairing_completion_phase session
        (run (advance session committing ∷ begin session ∷ []) saved)
      ≡ some q)
    × (to_db realm_saved ≤ to_db q)
phase_never_regresses_example =
    phase_never_regresses session realm_saved (advance session committing ∷ begin session ∷ [])
      saved saved_phase (tt, (tt, tt))

abbrev applied : LinkRow
applied = record { credential = 1 ∷ []; manifest = 2 ∷ []; root_public = 3 ∷ []; phase = 2 }

grant_is_fixed_example :
    Continues applied
      (link_run (abort ∷ link_begin [] [] [] ∷ link_advance committing ∷ []) (some applied))
    × (is_other_grant [] [] [] applied ≡ true
        → link_completion_begin [] [] []
            (link_run (abort ∷ link_begin [] [] [] ∷ link_advance committing ∷ []) (some applied))
          ≡ (
            err grant_mismatch,
            link_run (abort ∷ link_begin [] [] [] ∷ link_advance committing ∷ []) (some applied),
          ))
unfolding to_db
grant_is_fixed_example =
    grant_is_fixed [] [] [] applied (abort ∷ link_begin [] [] [] ∷ link_advance committing ∷ [])
      (omega arith)
