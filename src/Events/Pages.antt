-- ===== src/Events/Pages.antt =====
-- Pages of a conversation, of core/crates/arveil-core/src/delivery.rs.
use arveil.Base.{
  ℕ, ◌≤◌, ◌≡◌, refl, ap, ◌∙◌, false, ◌&&◌, String, List, [], ◌∷◌, ◌++◌, Option, some, Bytes, any,
  take, arith, Bool-cases, inl, inr,
}
use arveil.Sql.{select, select-append}
use arveil.Events.{
  Event, Events, EventSender, in_group, has_event_id, is_before, newest_first, events_page,
  record_event_by, recorded, next_id,
}

append_nil : (es : List Event) → es ++ [] ≡ es
append_nil [] = refl
append_nil (e ∷ es) = ap (◌∷◌ e) (append_nil es)

-- A page below a cursor does not shift: recording an event, of any group, leaves it as it is,
-- where the cursor is not above the next id, so for the cursor of any event of a page.
events_page-record_event_by :
    (g : Bytes) (cursor limit : ℕ) (group event : Bytes) (kind : String) (body : Bytes)
    (sender : Option EventSender) (now : ℕ) (s : Events)
    → cursor ≤ next_id s
    → events_page g (some cursor) limit (record_event_by group event kind body sender now s).1
      ≡ events_page g (some cursor) limit s
unfolding events_page record_event_by
events_page-record_event_by g cursor limit group event kind body sender now s h =
    elim (Bool-cases (any (has_event_id event) s)) [
      | inl old ↦ rw old refl
      | inr new ↦
          let below = λ (e : Event). in_group g e && is_before (some cursor) e in
          let added = recorded s group event kind body sender now in
          let above : below added ≡ false = ground arith in
          rw new (
            ap (λ l. take limit (newest_first l))
              (select-append below s (added ∷ []) ∙ rw above (append_nil (select below s))))
    ]
