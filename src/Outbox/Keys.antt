-- ===== src/Outbox/Keys.antt =====
-- The rows of the outbox and what is pending, of core/crates/arveil-core/src/delivery.rs.
use arveil.Base.{
  ℕ, ◌+◌, ◌≤◌, ◌<◌, ◌≡◌, refl, ◌∙◌, Bool, true, false, not, str_eq, List, [], ◌∷◌, ◌++◌, Option,
  none, Bytes, bytes_eq_iff, any, All, arith, Bool-cases, inl, inr, ok, err,
}
use arveil.Sql.{
  constraint, select, select-append, update_where, any-update_where, any-append, All-update_where,
  All-append, All-max_of, max_of,
}
use arveil.Outbox.{
  OutboxRow, Outbox, has_key, next_id, enqueue, pending, at_id, attempted, refused, confirmed,
  mark_attempt, mark_undeliverable, mark_accepted,
}

-- Ids increase along the table, and no key stands twice.
abbrev pub IsWellFormed : Outbox → Type 0
IsWellFormed [] = Unit
IsWellFormed (r ∷ s) =
    All (λ q. r.id < q.id) s × (any (has_key r.mailbox_id r.delivery_id) s ≡ false) × IsWellFormed s

-- An update of other columns.
update_where-IsWellFormed :
    (p : OutboxRow → Bool) (f : OutboxRow → OutboxRow) (s : Outbox)
    → ((r : OutboxRow)
        → ((f r).id ≡ r.id)
          × ((f r).mailbox_id ≡ r.mailbox_id)
          × ((f r).delivery_id ≡ r.delivery_id))
    → IsWellFormed s
    → IsWellFormed (update_where p f s)
update_where-IsWellFormed p f [] keeps w = w
update_where-IsWellFormed p f (r ∷ s) keeps w =
    let unique = λ (m d : Bytes).
      any-update_where (has_key m d) p f s (λ q. rw ((keeps q).1) (rw ((keeps q).2) refl)) in
    let ids = All-update_where (λ q. r.id < q.id) p f s (λ q h. rw ((keeps q).0) h) w.0 in
    let rest = update_where-IsWellFormed p f s keeps w.2 in
    elim (Bool-cases (p r)) [
      | inl e ↦ rw e (
          rw ((keeps r).0) (
            rw ((keeps r).1)
              (rw ((keeps r).2) (ids, unique r.mailbox_id r.delivery_id ∙ w.1, rest))))
      | inr e ↦ rw e (ids, unique r.mailbox_id r.delivery_id ∙ w.1, rest)
    ]

All-below : (s : Outbox) (m : ℕ) → All (λ r. r.id ≤ m) s → All (λ r. r.id < m + 1) s
All-below [] m h = tt
All-below (r ∷ s) m h = (omega arith, All-below s m h.1)

append-IsWellFormed :
    (s : Outbox) (q : OutboxRow)
    → IsWellFormed s
    → All (λ r. r.id < q.id) s
    → any (has_key q.mailbox_id q.delivery_id) s ≡ false
    → IsWellFormed (s ++ q ∷ [])
append-IsWellFormed [] q w below fresh = (tt, refl, tt)
append-IsWellFormed (r ∷ s) q w below fresh = (
  All-append _ s (q ∷ []) w.0 (below.0, tt),
  any-append (has_key r.mailbox_id r.delivery_id) s (q ∷ [])
      ∙ ground (
        arith,
        bytes_eq_iff r.mailbox_id q.mailbox_id,
        bytes_eq_iff q.mailbox_id r.mailbox_id,
        bytes_eq_iff r.delivery_id q.delivery_id,
        bytes_eq_iff q.delivery_id r.delivery_id,
      ),
  append-IsWellFormed s q w.2 below.1 (ground arith),
)

-- What an enqueued row is.
abbrev pub sealed_row : Outbox → Bytes → Bytes → Option Bytes → Bytes → Bytes → OutboxRow
sealed_row s mailbox delivery event enc ciphertext = record {
  id = next_id s;
  mailbox_id = mailbox;
  delivery_id = delivery;
  event_id = event;
  hpke_enc = enc;
  ciphertext = ciphertext;
  state = "sealed";
  attempts = 0;
  expires_at = none;
}

module _ (mailbox delivery : Bytes) (event : Option Bytes) (enc ciphertext : Bytes)
    (s : Outbox) where
  enqueue-IsWellFormed :
      IsWellFormed s → IsWellFormed (enqueue mailbox delivery event enc ciphertext s).1
  unfolding enqueue
  enqueue-IsWellFormed w = elim (Bool-cases (any (has_key mailbox delivery) s)) [
    | inl old ↦ rw old w
    | inr new ↦ rw new (
        append-IsWellFormed s (sealed_row s mailbox delivery event enc ciphertext) w
          (All-below s (max_of (λ r. r.id) s) (All-max_of (λ r. r.id) s _ (omega arith))) new)
  ]

  -- An envelope with a new key is stored behind the others, sealed with its bytes, under an id above
  -- all others, and is the last of what is pending; a key that stands already is refused, and
  -- nothing changes.
  pub enqueue_lem :
      (any (has_key mailbox delivery) s ≡ false
        → (enqueue mailbox delivery event enc ciphertext s
            ≡ (ok tt, s ++ sealed_row s mailbox delivery event enc ciphertext ∷ []))
          × (pending (enqueue mailbox delivery event enc ciphertext s).1
              ≡ pending s ++ sealed_row s mailbox delivery event enc ciphertext ∷ [])
          × All (λ r. r.id < next_id s) s)
      × (any (has_key mailbox delivery) s ≡ true
          → enqueue mailbox delivery event enc ciphertext s ≡ (err constraint, s))
  unfolding enqueue pending
  enqueue_lem = (
    λ new. (
      rw new,
      rw new (select-append (λ r. str_eq r.state "sealed") s _),
      All-below s (max_of (λ r. r.id) s) (All-max_of (λ r. r.id) s _ (omega arith)),
    ),
    λ old. rw old,
  )

-- The outbox stays well formed under every operation.
pub operations-IsWellFormed :
    (s : Outbox)
    → IsWellFormed s
    → ((mailbox delivery : Bytes) (event : Option Bytes) (enc ciphertext : Bytes)
        → IsWellFormed (enqueue mailbox delivery event enc ciphertext s).1)
      × ((id : ℕ) → IsWellFormed (mark_attempt id s))
      × ((id : ℕ) → IsWellFormed (mark_undeliverable id s))
      × ((id : ℕ) (expires_at : Option ℕ) → IsWellFormed (mark_accepted id expires_at s))
unfolding mark_attempt mark_undeliverable mark_accepted
operations-IsWellFormed s w = (
  λ mailbox delivery event enc ciphertext.
      enqueue-IsWellFormed mailbox delivery event enc ciphertext s w,
  λ id. update_where-IsWellFormed (at_id id) attempted s (λ r. (refl, refl, refl)) w,
  λ id. update_where-IsWellFormed (at_id id) refused s (λ r. (refl, refl, refl)) w,
  λ id e. update_where-IsWellFormed (at_id id) (confirmed e) s (λ r. (refl, refl, refl)) w,
)

abbrev pub without_id : ℕ → List OutboxRow → List OutboxRow
without_id id = select (λ r. not (at_id id r))

settle :
    (id : ℕ) (f : OutboxRow → OutboxRow) (s : Outbox)
    → ((r : OutboxRow) → str_eq (f r).state "sealed" ≡ false)
    → pending (update_where (at_id id) f s) ≡ without_id id (pending s)
unfolding pending
settle id f [] settled = refl
settle id f (r ∷ s) settled = ground (arith, settled r, settle id f s settled)

retry : (id : ℕ) (s : Outbox) → pending (mark_attempt id s) ≡ mark_attempt id (pending s)
unfolding pending mark_attempt
retry id [] = refl
retry id (r ∷ s) = ground (arith, retry id s)

-- What is pending after an outcome: an accepted or an undeliverable envelope is pending no more,
-- an attempt only counts, and all the others stay as they were, in the same order.
pub pending_outcomes :
    (id : ℕ) (expires_at : Option ℕ) (s : Outbox)
    → (pending (mark_accepted id expires_at s) ≡ without_id id (pending s))
      × (pending (mark_undeliverable id s) ≡ without_id id (pending s))
      × (pending (mark_attempt id s) ≡ mark_attempt id (pending s))
unfolding mark_accepted mark_undeliverable
pending_outcomes id expires_at s =
    (settle id (confirmed expires_at) s (λ r. refl), settle id refused s (λ r. refl), retry id s)
