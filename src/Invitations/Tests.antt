-- ===== src/Invitations/Tests.antt =====
-- Runs of the invitations, and the theorem at a concrete table.
use arveil.Base.{
  ℕ, ◌+◌, ◌*◌, ◌≡◌, refl, Bool, true, false, not, String, List, [], ◌∷◌, Option, none, some, Bytes,
}
use arveil.Sql.Tables.{kept_if, row_at, IsKeyed}
use arveil.Invitations.{
  InvitationOperation, InvitationHello, InvitationTables, by_operation, by_hello,
  invitation_operation, invitation_operations, invitation_operation_save, invitation_hello_save,
  invitation_hello_remove, invitation_cleanup, cutoff_of, belongs,
}
use arveil.Invitations.Cleanup.{invitation_cleanup_lem, cleaned}

abbrev operation : Bytes → String → String → ℕ → ℕ → InvitationOperation
operation id direction state created expires = record {
  id = id;
  direction = direction;
  link = 108 ∷ [];
  request_key = [];
  claim_key = 2 ∷ [];
  secret = 3 ∷ [];
  state = state;
  created_at = created;
  expires_at = expires;
  claimant = [];
  group_id = 6 ∷ [];
  key_package = 5 ∷ [];
  checked_at = 1;
}

abbrev hello : Bytes → Bytes → InvitationHello
hello group invitation = record {
  group_id = group;
  invitation_id = invitation;
  sender = 4 ∷ [];
  name = none;
}

abbrev old_link : Bytes
old_link = 1 ∷ []

abbrev new_link : Bytes
new_link = 2 ∷ []

-- An outgoing invitation of each age, and two that others sent.
abbrev operations : List InvitationOperation
operations =
    operation old_link "outgoing" "open" 1 10
    ∷ operation new_link "outgoing" "open" 4000000 5000000
    ∷ operation old_link "incoming" "complete" 2 10
    ∷ operation new_link "incoming" "prepared" 2 10
    ∷ []

abbrev tables : InvitationTables
tables = record {
  operations = operations;
  hellos = hello (7 ∷ []) old_link ∷ hello (8 ∷ []) new_link ∷ [];
}

abbrev now : ℕ
now = 4000000

a_prepared_operation_survives :
    invitation_operation new_link "incoming" (invitation_cleanup now tables)
    ≡ some (operation new_link "incoming" "prepared" 2 10)
unfolding invitation_operation invitation_cleanup cutoff_of arveil.Base.bytes_eq
a_prepared_operation_survives = refl

the_newest_comes_first :
    invitation_operations "outgoing" tables
    ≡ operation new_link "outgoing" "open" 4000000 5000000
      ∷ operation old_link "outgoing" "open" 1 10
      ∷ []
unfolding invitation_operations
the_newest_comes_first = refl

a_save_replaces_its_direction :
    invitation_operation old_link "incoming"
      (invitation_operation_save (operation old_link "incoming" "enrolled" 9 9) tables)
    ≡ some (operation old_link "incoming" "enrolled" 9 9)
unfolding invitation_operation invitation_operation_save arveil.Base.bytes_eq
a_save_replaces_its_direction = refl

a_second_hello_is_ignored :
    invitation_hello_remove (7 ∷ []) (invitation_hello_save (hello (7 ∷ []) new_link) tables)
    ≡ record tables { hellos = hello (8 ∷ []) new_link ∷ [] }
unfolding invitation_hello_remove invitation_hello_save arveil.Base.bytes_eq
a_second_hello_is_ignored = refl

operations-IsKeyed : IsKeyed by_operation operations
unfolding arveil.Base.bytes_eq
operations-IsKeyed = (refl, (refl, (refl, (refl, tt))))

hellos-IsKeyed : IsKeyed by_hello tables.hellos
unfolding arveil.Base.bytes_eq
hellos-IsKeyed = (refl, (refl, tt))

invitation_cleanup_lem_example :
    (invitation_operation old_link "incoming" (invitation_cleanup now tables)
      ≡ cleaned (cutoff_of now) (invitation_operation old_link "incoming" tables))
    × (row_at by_hello (7 ∷ []) (invitation_cleanup now tables).hellos
        ≡ kept_if
            (λ h. not (belongs (cutoff_of now) operations h))
            (row_at by_hello (7 ∷ []) tables.hellos))
invitation_cleanup_lem_example =
    invitation_cleanup_lem old_link "incoming" (7 ∷ []) now tables operations-IsKeyed hellos-IsKeyed
