-- ===== src/Invitations.antt =====
-- Personal invitations, of core/crates/arveil-core/src/invitation_store.rs. A link and a name are
-- texts as bytes; a direction and a state keep their texts; times are natural numbers, so that the
-- cutoff stops at zero, below which no invitation expires.
pub mod Cleanup
mod Tests
use arveil.Base.{
  ℕ, ◌+◌, ◌*◌, ◌-◌, Bool, true, false, not, ◌&&◌, ◌||◌, String, str_eq, str_eq_iff, bytes_eq_iff,
  ◌≡◌, ◌↔◌, arith, List, [], ◌∷◌, ◌++◌, Option, none, some, Bytes, bytes_eq, any, ltb, ◌==◌,
  if◌then◌else◌,
}
use arveil.Sql.{update_where, select, first_where}
use arveil.Sql.Tables.{Keyed, by_blob, at, row_at, delete_where, order_by}
use arveil.Cbor.{lex_le}

pub record InvitationOperation : Type 0 where
  pub id : Bytes
  pub direction : String
  pub link : Bytes
  pub request_key : Bytes
  pub claim_key : Bytes
  pub secret : Bytes
  pub state : String
  pub created_at : ℕ
  pub expires_at : ℕ
  pub claimant : Bytes
  pub group_id : Bytes
  pub key_package : Bytes
  pub checked_at : ℕ

pub record InvitationHello : Type 0 where
  pub group_id : Bytes
  pub invitation_id : Bytes
  pub sender : Bytes
  pub name : Option Bytes

pub record InvitationTables : Type 0 where
  pub operations : List InvitationOperation
  pub hellos : List InvitationHello

-- `PRIMARY KEY(id,direction)`
abbrev pub same_key : Bytes × String → Bytes × String → Bool
same_key a b = bytes_eq a.0 b.0 && str_eq a.1 b.1

pub same_key_iff : (a b : Bytes × String) → (same_key a b ≡ true) ↔ (a ≡ b)
same_key_iff (i, d) (j, e) = ground (arith, bytes_eq_iff i j, str_eq_iff d e)

abbrev pub by_operation : Keyed (Bytes × String) InvitationOperation
by_operation = record { key = λ o. (o.id, o.direction); same = same_key; same_iff = same_key_iff }

unfoldable pub invitation_operation : Bytes → String → InvitationTables → Option InvitationOperation
invitation_operation id direction s = row_at by_operation (id, direction) s.operations

-- `ORDER BY created_at DESC,id`
abbrev pub newest_operation : InvitationOperation → InvitationOperation → Bool
newest_operation a b =
    ltb b.created_at a.created_at || (a.created_at == b.created_at && lex_le a.id b.id)

unfoldable pub invitation_operations : String → InvitationTables → List InvitationOperation
invitation_operations direction s =
    order_by newest_operation (select (λ o. str_eq o.direction direction) s.operations)

-- `INSERT … ON CONFLICT(id,direction) DO UPDATE`: every other column is replaced.
abbrev pub overwritten : InvitationOperation → InvitationOperation → InvitationOperation
overwritten new o = record new { id = o.id; direction = o.direction }

unfoldable pub invitation_operation_save : InvitationOperation → InvitationTables → InvitationTables
invitation_operation_save o s = record s {
  operations =
      if any (at by_operation (o.id, o.direction)) s.operations
      then update_where (at by_operation (o.id, o.direction)) (overwritten o) s.operations
      else s.operations ++ o ∷ [];
}

abbrev pub by_hello : Keyed Bytes InvitationHello
by_hello = by_blob (λ h. h.group_id)

-- `INSERT OR IGNORE`
unfoldable pub invitation_hello_save : InvitationHello → InvitationTables → InvitationTables
invitation_hello_save h s = record s {
  hellos = if any (at by_hello h.group_id) s.hellos then s.hellos else s.hellos ++ h ∷ [];
}

unfoldable pub invitation_hellos : InvitationTables → List InvitationHello
invitation_hellos s = s.hellos

unfoldable pub invitation_hello_remove : Bytes → InvitationTables → InvitationTables
invitation_hello_remove group s = record s { hellos = delete_where (at by_hello group) s.hellos }

-- `direction='outgoing' AND expires_at<?1`
abbrev pub is_over : ℕ → InvitationOperation → Bool
is_over cutoff o = str_eq o.direction "outgoing" && ltb o.expires_at cutoff

abbrev pub is_finished : ℕ → InvitationOperation → Bool
is_finished cutoff o =
    is_over cutoff o || (str_eq o.direction "incoming" && str_eq o.state "complete")

abbrev pub wiped : InvitationOperation → InvitationOperation
wiped o = record o { link = []; secret = []; key_package = [] }

-- `invitation_id IN (SELECT id …)`
abbrev pub belongs : ℕ → List InvitationOperation → InvitationHello → Bool
belongs cutoff operations h =
    any (λ o. is_over cutoff o && bytes_eq o.id h.invitation_id) operations

unfoldable pub cutoff_of : ℕ → ℕ
cutoff_of now = now - 37 * 24 * 3600

unfoldable pub invitation_cleanup : ℕ → InvitationTables → InvitationTables
invitation_cleanup now s =
    let cutoff = cutoff_of now in
    let clean = update_where (is_finished cutoff) wiped s.operations in
    record {
      hellos = delete_where (belongs cutoff clean) s.hellos;
      operations = delete_where (is_over cutoff) clean;
    }
