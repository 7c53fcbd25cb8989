-- ===== src/Invitations/Cleanup.antt =====
-- What the cleanup of core/crates/arveil-core/src/invitation_store.rs keeps.
use arveil.Base.{
  ℕ, ◌≡◌, refl, ap, ◌∙◌, Bool, not, ◌&&◌, String, str_eq, Option, none, some, Bytes, bytes_eq, ltb,
  if◌then◌else◌, Bool-cases, Option-cases, inl, inr,
}
use arveil.Sql.{update_where, any-update_where}
use arveil.Sql.Tables.{
  kept_if, row_at, IsKeyed, row_at-update_where, row_at-select, update_where-IsKeyed,
}
use arveil.Invitations.{
  InvitationOperation, InvitationTables, by_operation, invitation_operation, by_hello, is_over,
  is_finished, wiped, belongs, cutoff_of, invitation_cleanup,
}

-- What becomes of an operation.
unfoldable pub cleaned : ℕ → Option InvitationOperation → Option InvitationOperation
cleaned cutoff none = none
cleaned cutoff (some o) =
    if str_eq o.direction "outgoing" && ltb o.expires_at cutoff
    then none
    else if str_eq o.direction "incoming" && str_eq o.state "complete"
    then some (wiped o)
    else some o

cleaned-row :
    (cutoff : ℕ) (o : InvitationOperation)
    → kept_if (λ x. not (is_over cutoff x)) (some (if is_finished cutoff o then wiped o else o))
      ≡ cleaned cutoff (some o)
unfolding cleaned
cleaned-row cutoff o = elim (Bool-cases (is_over cutoff o)) [
  | inl t ↦ rw t (rw t refl)
  | inr t ↦ elim (Bool-cases (str_eq o.direction "incoming" && str_eq o.state "complete")) [
    | inl d ↦ rw t (rw d (rw t refl))
    | inr d ↦ rw t (rw d (rw t refl))
  ]
]

kept_if-same :
    {A : Type 0} (q p : A → Bool) (o : Option A) → ((a : A) → q a ≡ p a) → kept_if q o ≡ kept_if p o
kept_if-same q p none h = refl
kept_if-same q p (some a) h = rw (h a) refl

-- The cleanup does to each operation and to each hello what it says: an outgoing invitation that
-- expired 37 days ago goes, an incoming one that is complete loses its link, its secret and its key
-- package, every other operation stays whole; a hello goes exactly if it answers an outgoing
-- invitation that goes. The tables' keys are distinct.
pub invitation_cleanup_lem :
    (id : Bytes) (direction : String) (group : Bytes) (now : ℕ) (s : InvitationTables)
    → IsKeyed by_operation s.operations
    → IsKeyed by_hello s.hellos
    → (invitation_operation id direction (invitation_cleanup now s)
        ≡ cleaned (cutoff_of now) (invitation_operation id direction s))
      × (row_at by_hello group (invitation_cleanup now s).hellos
          ≡ kept_if
              (λ h. not (belongs (cutoff_of now) s.operations h))
              (row_at by_hello group s.hellos))
unfolding invitation_operation invitation_cleanup cleaned
invitation_cleanup_lem id direction group now s w v =
    let cutoff = cutoff_of now in
    let clean = update_where (is_finished cutoff) wiped s.operations in
    (
      row_at-select by_operation (id, direction) (λ o. not (is_over cutoff o)) clean
            (update_where-IsKeyed by_operation (is_finished cutoff) wiped (λ o. refl) s.operations
              w)
          ∙ ap (kept_if (λ o. not (is_over cutoff o))) (
              row_at-update_where by_operation (is_finished cutoff) wiped (λ o. refl)
                (id, direction) s.operations)
          ∙ elim (Option-cases (row_at by_operation (id, direction) s.operations)) [
            | inl e ↦ rw e refl
            | inr (o, e) ↦ rw e (cleaned-row cutoff o)
          ],
      row_at-select by_hello group (λ h. not (belongs cutoff clean h)) s.hellos v
          ∙ kept_if-same (λ h. not (belongs cutoff clean h))
              (λ h. not (belongs cutoff s.operations h)) (row_at by_hello group s.hellos)
              (λ h. ap not (
                any-update_where (λ o. is_over cutoff o && bytes_eq o.id h.invitation_id)
                  (is_finished cutoff) wiped s.operations (λ o. refl))),
    )
