-- ===== src/Pairing.antt =====
-- Pairing sessions of core/crates/arveil-core/src/client.rs: the rendezvous of a pairing, its
-- grant, and how far its completion got. The relay's expiry, a u64 stored as i64 and read back, is
-- a natural number, and so are the stored phases.
pub mod Commit
pub mod Phases
pub mod Link
mod Tests
use arveil.Base.{
  ℕ, Bool, true, false, not, ◌&&◌, List, [], ◌∷◌, ◌++◌, Option, none, some, Bytes, bytes_eq, any,
  ◌==◌, max, if◌then◌else◌,
}
use arveil.Sql.{update_where, count_where}
use arveil.Sql.Tables.{Keyed, by_blob, is_some, map_option, delete_where, at, row_at}

pub data PairingCompletionPhase : Type 0 where
  committing local_applied realm_saved endpoint_stored : PairingCompletionPhase
  realm_enrolled mailbox_stored key_packages_published complete : PairingCompletionPhase

-- `phase as i64`
unfoldable pub to_db : PairingCompletionPhase → ℕ
to_db committing = 1
to_db local_applied = 2
to_db realm_saved = 3
to_db endpoint_stored = 4
to_db realm_enrolled = 5
to_db mailbox_stored = 6
to_db key_packages_published = 7
to_db complete = 8

unfoldable pub from_db : ℕ → Option PairingCompletionPhase
from_db value =
    if value == 1
    then some committing
    else if value == 2
    then some local_applied
    else if value == 3
    then some realm_saved
    else if value == 4
    then some endpoint_stored
    else if value == 5
    then some realm_enrolled
    else if value == 6
    then some mailbox_stored
    else if value == 7
    then some key_packages_published
    else if value == 8
    then some complete
    else none

pub data PairingCancellationStatus : Type 0 where
  cancelled already_committed missing : PairingCancellationStatus

-- A row of `pairing_sessions`, with the columns of `PairingSessionState`.
pub record PairingSessionState : Type 0 where
  pub session_id : Bytes
  pub code : Bytes
  pub expires_at : ℕ
  pub sas : Option Bytes
  pub credential : Option Bytes
  pub manifest : Option Bytes
  pub root_public : Option Bytes

-- A row of `pairing_completion`.
pub record CompletionRow : Type 0 where
  pub session_id : Bytes
  pub phase : ℕ

pub record PairingTables : Type 0 where
  pub sessions : List PairingSessionState
  pub completion : List CompletionRow

abbrev pub by_session : Keyed Bytes PairingSessionState
by_session = by_blob (λ r. r.session_id)

abbrev pub by_completion : Keyed Bytes CompletionRow
by_completion = by_blob (λ r. r.session_id)

abbrev pub started : Bytes → Bytes → ℕ → PairingSessionState
started session code expires = record {
  session_id = session;
  code = code;
  expires_at = expires;
  sas = none;
  credential = none;
  manifest = none;
  root_public = none;
}

-- `INSERT OR REPLACE`: a row with the key goes, and the new one gets a new rowid.
unfoldable pub pairing_session_start : Bytes → Bytes → ℕ → PairingTables → PairingTables
pairing_session_start session_id code expires_at s = record s {
  sessions =
      delete_where (at by_session session_id) s.sessions ++ started session_id code expires_at ∷ [];
}

abbrev pub granted : Bytes → Bytes → Bytes → Bytes → PairingSessionState → PairingSessionState
granted sas credential manifest root r = record r {
  sas = some sas;
  credential = some credential;
  manifest = some manifest;
  root_public = some root;
}

unfoldable pub pairing_session_ready :
    Bytes → Bytes → Bytes → Bytes → Bytes → PairingTables → Bool × PairingTables
pairing_session_ready session_id sas credential manifest root_public s = (
  count_where (at by_session session_id) s.sessions == 1,
  record s {
    sessions =
        update_where (at by_session session_id) (granted sas credential manifest root_public)
          s.sessions;
  },
)

unfoldable pub pairing_session : Bytes → PairingTables → Option PairingSessionState
pairing_session session_id s = row_at by_session session_id s.sessions

-- `ORDER BY rowid DESC LIMIT 1`
unfoldable pub last_row : List PairingSessionState → Option PairingSessionState
last_row [] = none
last_row (r ∷ []) = some r
last_row (r ∷ q ∷ s) = last_row (q ∷ s)

unfoldable pub latest_pairing_session : PairingTables → Option PairingSessionState
latest_pairing_session s = last_row s.sessions

unfoldable pub pairing_session_clear : Bytes → PairingTables → Bool × PairingTables
pairing_session_clear session_id s = (
  count_where (at by_session session_id) s.sessions == 1,
  record {
    sessions = delete_where (at by_session session_id) s.sessions;
    completion = delete_where (at by_completion session_id) s.completion;
  },
)

-- The session with all four columns of the grant.
abbrev pub is_ready : Bytes → PairingSessionState → Bool
is_ready session_id r =
    at by_session session_id r
    && is_some r.sas
    && is_some r.credential
    && is_some r.manifest
    && is_some r.root_public

-- `INSERT OR IGNORE`
unfoldable pub insert_or_ignore : Bytes → List CompletionRow → List CompletionRow
unfolding to_db
insert_or_ignore session_id s =
    if any (at by_completion session_id) s
    then s
    else s ++ record { session_id = session_id; phase = to_db committing } ∷ []

unfoldable pub stored_phase : Option CompletionRow → Option PairingCompletionPhase
stored_phase none = none
stored_phase (some r) = from_db r.phase

unfoldable pub pairing_completion_phase : Bytes → PairingTables → Option PairingCompletionPhase
pairing_completion_phase session_id s = stored_phase (row_at by_completion session_id s.completion)

unfoldable pub pairing_completion_begin :
    Bytes → PairingTables → Option PairingCompletionPhase × PairingTables
pairing_completion_begin session_id s =
    if not (count_where (is_ready session_id) s.sessions == 1)
    then (none, s)
    else (let completion = insert_or_ignore session_id s.completion in
        (
          stored_phase (row_at by_completion session_id completion),
          record s { completion = completion },
        ))

abbrev pub advanced : PairingCompletionPhase → CompletionRow → CompletionRow
advanced phase r = record r { phase = max r.phase (to_db phase) }

-- `phase = MAX(phase, ?2)`
unfoldable pub pairing_completion_advance :
    Bytes → PairingCompletionPhase → PairingTables → Bool × PairingTables
pairing_completion_advance session_id phase s = (
  count_where (at by_completion session_id) s.completion == 1,
  record s {
    completion = update_where (at by_completion session_id) (advanced phase) s.completion;
  },
)

unfoldable pub pairing_session_cancel :
    Bytes → PairingTables → PairingCancellationStatus × PairingTables
pairing_session_cancel session_id s =
    if not (count_where (at by_completion session_id) s.completion == 0)
    then (already_committed, s)
    else (
      if count_where (at by_session session_id) s.sessions == 1 then cancelled else missing,
      record s { sessions = delete_where (at by_session session_id) s.sessions },
    )
