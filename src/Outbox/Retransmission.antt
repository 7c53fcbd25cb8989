-- ===== src/Outbox/Retransmission.antt =====
-- The life of an envelope in the outbox of core/crates/arveil-core/src/delivery.rs: what is
-- retransmitted is what was sealed.
use arveil.Base.{
  ℕ, ◌+◌, ◌≤◌, ◌≡◌, ◌≢◌, refl, ◌∙◌, Bool, String, str_eq_iff, [], ◌∷◌, ◌++◌, Option, Bytes, arith,
  Bool-cases, inl, inr, any,
}
use arveil.Sql.{update_where}
use arveil.Outbox.{
  OutboxRow, Outbox, has_key, at_id, attempted, refused, confirmed, enqueue, mark_attempt,
  mark_undeliverable, mark_accepted,
}

-- What the device does with its outbox, in any order.
pub data Step (s : Outbox) : Outbox → Type 0 where
  enqueued :
      (mailbox delivery : Bytes) (event : Option Bytes) (enc ciphertext : Bytes)
      → Step s (enqueue mailbox delivery event enc ciphertext s).1
  attempt : (id : ℕ) → Step s (mark_attempt id s)
  undelivered : (id : ℕ) → Step s (mark_undeliverable id s)
  accepted : (id : ℕ) (expires_at : Option ℕ) → Step s (mark_accepted id expires_at s)

pub data Reach (s : Outbox) : Outbox → Type 0 where
  here : Reach s s
  next : {t u : Outbox} → Reach s t → Step t u → Reach s u

-- A row later: the same envelope, at least as many attempts, and not sealed again once it had an
-- outcome.
pub record Later (r q : OutboxRow) : Type 0 where
  pub id : q.id ≡ r.id
  pub mailbox_id : q.mailbox_id ≡ r.mailbox_id
  pub delivery_id : q.delivery_id ≡ r.delivery_id
  pub event_id : q.event_id ≡ r.event_id
  pub hpke_enc : q.hpke_enc ≡ r.hpke_enc
  pub ciphertext : q.ciphertext ≡ r.ciphertext
  pub attempts : r.attempts ≤ q.attempts
  pub settled : r.state ≢ "sealed" → q.state ≢ "sealed"

-- Every row of the table stands, later, at its place in the other; rows may follow.
abbrev pub Keeps : Outbox → Outbox → Type 0
Keeps [] t = Unit
Keeps (r ∷ s) [] = ⊥
Keeps (r ∷ s) (q ∷ t) = Later r q × Keeps s t

Later-refl : (r : OutboxRow) → Later r r
Later-refl r = record {
  id = refl;
  mailbox_id = refl;
  delivery_id = refl;
  event_id = refl;
  hpke_enc = refl;
  ciphertext = refl;
  attempts = omega arith;
  settled = λ h. h;
}

Later-trans : {r q p : OutboxRow} → Later r q → Later q p → Later r p
Later-trans a b = record {
  id = b.id ∙ a.id;
  mailbox_id = b.mailbox_id ∙ a.mailbox_id;
  delivery_id = b.delivery_id ∙ a.delivery_id;
  event_id = b.event_id ∙ a.event_id;
  hpke_enc = b.hpke_enc ∙ a.hpke_enc;
  ciphertext = b.ciphertext ∙ a.ciphertext;
  attempts = omega (arith, a.attempts, b.attempts);
  settled = λ h. b.settled (a.settled h);
}

Keeps-trans : (s t u : Outbox) → Keeps s t → Keeps t u → Keeps s u
Keeps-trans [] t u a b = tt
Keeps-trans (r ∷ s) [] u a b = absurd a
Keeps-trans (r ∷ s) (q ∷ t) [] a b = absurd b
Keeps-trans (r ∷ s) (q ∷ t) (p ∷ u) a b = (Later-trans a.0 b.0, Keeps-trans s t u a.1 b.1)

Keeps-append : (s t : Outbox) → Keeps s (s ++ t)
Keeps-append [] t = tt
Keeps-append (r ∷ s) t = (Later-refl r, Keeps-append s t)

Keeps-refl : (s : Outbox) → Keeps s s
Keeps-refl [] = tt
Keeps-refl (r ∷ s) = (Later-refl r, Keeps-refl s)

Keeps-update_where :
    (p : OutboxRow → Bool) (f : OutboxRow → OutboxRow) (s : Outbox)
    → ((r : OutboxRow) → Later r (f r))
    → Keeps s (update_where p f s)
Keeps-update_where p f [] h = tt
Keeps-update_where p f (r ∷ s) h = elim (Bool-cases (p r)) [
  | inl e ↦ (rw e (h r), Keeps-update_where p f s h)
  | inr e ↦ (rw e (Later-refl r), Keeps-update_where p f s h)
]

-- The parts of `Later` for an update of the outcome or of the attempts.
Later-update :
    (r : OutboxRow) (state : String) (attempts : ℕ) (expires_at : Option ℕ)
    → r.attempts ≤ attempts
    → (r.state ≢ "sealed" → state ≢ "sealed")
    → Later r (record r { state = state; attempts = attempts; expires_at = expires_at })
Later-update r state attempts expires_at h settled = record {
  id = refl;
  mailbox_id = refl;
  delivery_id = refl;
  event_id = refl;
  hpke_enc = refl;
  ciphertext = refl;
  attempts = h;
  settled = settled;
}

undeliverable_ne_sealed : ◌≢◌ {A = String} "undeliverable" "sealed"
undeliverable_ne_sealed = ground (arith, str_eq_iff "undeliverable" "sealed")

accepted_ne_sealed : ◌≢◌ {A = String} "accepted" "sealed"
accepted_ne_sealed = ground (arith, str_eq_iff "accepted" "sealed")

Step-Keeps : {s t : Outbox} → Step s t → Keeps s t
unfolding enqueue mark_attempt mark_undeliverable mark_accepted
Step-Keeps {s} (enqueued mailbox delivery event enc ciphertext) =
    elim (Bool-cases (any (has_key mailbox delivery) s)) [
      | inl old ↦ rw old (Keeps-refl s)
      | inr new ↦ rw new (Keeps-append s _)
    ]
Step-Keeps {s} (attempt id) =
    Keeps-update_where (at_id id) attempted s
      (λ r. Later-update r r.state (r.attempts + 1) r.expires_at (omega arith) (λ h. h))
Step-Keeps {s} (undelivered id) = Keeps-update_where (at_id id) refused s (λ r.
    Later-update r "undeliverable" r.attempts r.expires_at (omega arith)
      (λ h. undeliverable_ne_sealed))
Step-Keeps {s} (accepted id e) =
    Keeps-update_where (at_id id) (confirmed e) s
      (λ r. Later-update r "accepted" r.attempts _ (omega arith) (λ h. accepted_ne_sealed))

-- Whatever the device does with its outbox, no stored envelope is lost, moved or changed in its
-- bytes, its attempts only grow, and one that was accepted or undeliverable is never sealed again.
pub Reach-Keeps : {s t : Outbox} → Reach s t → Keeps s t
Reach-Keeps {s} here = Keeps-refl s
Reach-Keeps {s} (next {t} {u} r step) = Keeps-trans s t u (Reach-Keeps r) (Step-Keeps step)
