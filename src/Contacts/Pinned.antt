-- ===== src/Contacts/Pinned.antt =====
-- The root of a verified contact over runs of the operations of
-- core/crates/arveil-core/src/client.rs and card_store.rs.
use arveil.Base.{
  ℕ, ◌≡◌, refl, ap, sym, ◌∙◌, Bool, true, false, List, [], ◌∷◌, ◌++◌, Option, none, some, Bytes,
  bytes_eq, bytes_eq_iff, any, ◌==◌, Bool-cases, Option-cases, Result-cases, inl, inr, arith, err,
}
use arveil.Sql.{update_where}
use arveil.Sql.Tables.{
  map_option, is_some, at, row_at, any-at, row_at-append, row_at-update_where, row_at-key,
}
use arveil.Client.{contact_root_mismatch, hex_of}
use arveil.Contacts.{
  VerifiedHow, comparison, Text, ContactRow, Contacts, by_identity, contact, new_contact, rooted,
  seen, contact_seen, chosen, contact_route_save, contact_rename, update_contact, contact_accept,
  pinned, contact_verified,
}
use arveil.Contacts.Numbers.{normalize_number, safety_number_with, compared, contact_verify}

-- A call of an operation that writes contacts.
pub data ContactStep : Type 0 where
  see : Bytes → Bytes → ℕ → ContactStep
  save_route : Bytes → Bytes → Text → ContactStep
  rename : Bytes → Text → ContactStep
  accept : Bytes → ContactStep
  mark_verified : Bytes → VerifiedHow → ℕ → ContactStep
  verify : Option Bytes → Bytes → Text → ℕ → ContactStep

-- The row of the identity has this root and is verified.
abbrev pub IsPinned : Bytes → Bytes → Contacts → Type 0
IsPinned identity root s =
    (r : ContactRow) × (row_at by_identity identity s ≡ some r)
    × (r.root_public ≡ root)
    × ((r.verified == 0) ≡ false)

module _ (sha256 : Bytes → Bytes) where
  abbrev pub step : ContactStep → Contacts → Contacts
  step (see identity root now) s = (contact_seen identity root now s).1
  step (save_route identity device route) s = (contact_route_save identity device route s []).1
  step (rename identity name) s = (contact_rename identity name s).1
  step (accept identity) s = (contact_accept identity s).1
  step (mark_verified identity how now) s = (contact_verified identity how now s).1
  step (verify own identity number now) s = (contact_verify sha256 own identity number now s).1

  abbrev pub run : List ContactStep → Contacts → Contacts
  run [] s = s
  run (c ∷ steps) s = run steps (step c s)

-- An update that keeps the identity, the root and a verification.
update-IsPinned :
    (identity root : Bytes) (p : ContactRow → Bool) (f : ContactRow → ContactRow) (s : Contacts)
    → ((r : ContactRow) → (f r).identity_id ≡ r.identity_id)
    → ((r : ContactRow) → (f r).root_public ≡ r.root_public)
    → ((r : ContactRow) → (r.verified == 0) ≡ false → ((f r).verified == 0) ≡ false)
    → IsPinned identity root s
    → IsPinned identity root (update_where p f s)
update-IsPinned identity root p f s ids roots marks (r, e, h, v) =
    let there = row_at-update_where by_identity p f ids identity s ∙ ap (map_option _) e in
    elim (Bool-cases (p r)) [
      | inl q ↦ (f r, there ∙ rw q refl, roots r ∙ h, marks r v)
      | inr q ↦ (r, there ∙ rw q refl, h, v)
    ]

update_contact-IsPinned :
    (identity root other : Bytes) (f : ContactRow → ContactRow) (s : Contacts)
    → ((r : ContactRow) → (f r).identity_id ≡ r.identity_id)
    → ((r : ContactRow) → (f r).root_public ≡ r.root_public)
    → ((r : ContactRow) → (r.verified == 0) ≡ false → ((f r).verified == 0) ≡ false)
    → IsPinned identity root s
    → IsPinned identity root (update_contact other f s).1
unfolding update_contact
update_contact-IsPinned identity root other f s ids roots marks h =
    elim (Bool-cases (any (at by_identity other) s)) [
      | inl e ↦ rw e (update-IsPinned identity root _ f s ids roots marks h)
      | inr e ↦ rw e h
    ]

-- A new row of another identity leaves the row where it was.
append-IsPinned :
    (identity root other root2 : Bytes) (now : ℕ) (s : Contacts)
    → row_at by_identity other s ≡ none
    → IsPinned identity root s
    → IsPinned identity root (s ++ new_contact other root2 now ∷ [])
append-IsPinned identity root other root2 now s e (r, found, h, v) =
    let fresh = any-at by_identity other s ∙ ap is_some e in
    let there = row_at-append by_identity identity (new_contact other root2 now) s fresh in
    elim (Bool-cases (bytes_eq other identity)) [
      | inl same ↦ ground (
        arith,
        found,
        sym (ap (λ k. row_at by_identity k s) ((bytes_eq_iff other identity).0 same)) ∙ e,
      )
      | inr differs ↦ (r, there ∙ rw differs found, h, v)
    ]

-- A row that is not verified is not the pinned one, so its root may change.
rooted-IsPinned :
    (identity root other root2 : Bytes) (q : ContactRow) (s : Contacts)
    → row_at by_identity other s ≡ some q
    → (q.verified == 0) ≡ true
    → IsPinned identity root s
    → IsPinned identity root (update_where (at by_identity other) (rooted root2) s)
rooted-IsPinned identity root other root2 q s e open_ (r, found, h, v) =
    let there =
      row_at-update_where by_identity (at by_identity other) (rooted root2) (λ x. refl) identity s
      ∙ ap (map_option _) found in
    elim (Bool-cases (bytes_eq r.identity_id other)) [
      | inl same ↦
          let key =
            sym (row_at-key by_identity identity s r found)
            ∙ (bytes_eq_iff r.identity_id other).0 same in
          let both : some r ≡ some q = sym found ∙ ap (λ k. row_at by_identity k s) key ∙ e in
          let marks = ap (map_option (λ x. x.verified == 0)) both in ground (arith, v, open_, marks)
      | inr differs ↦ (r, there ∙ rw differs refl, h, v)
    ]

see-IsPinned :
    (identity root other root2 : Bytes) (now : ℕ) (s : Contacts)
    → IsPinned identity root s
    → IsPinned identity root (contact_seen other root2 now s).1
unfolding contact_seen seen
see-IsPinned identity root other root2 now s h = elim (Option-cases (row_at by_identity other s)) [
  | inl e ↦ rw e (append-IsPinned identity root other root2 now s e h)
  | inr (q, e) ↦ elim (Bool-cases (bytes_eq q.root_public root2)) [
    | inl same ↦ rw e (rw same h)
    | inr differs ↦ elim (Bool-cases (q.verified == 0)) [
      | inl free ↦
          rw e (rw differs (rw free (rooted-IsPinned identity root other root2 q s e free h)))
      | inr fixed ↦ rw e (rw differs (rw fixed h))
    ]
  ]
]

chosen-IsPinned :
    (identity root other : Bytes) (s : Contacts)
    → IsPinned identity root s
    → IsPinned identity root (update_where (at by_identity other) chosen s)
chosen-IsPinned identity root other s h =
    update-IsPinned identity root (at by_identity other) chosen s (λ r. refl) (λ r. refl) (λ r v. v)
      h

module _ (sha256 : Bytes → Bytes) (identity root : Bytes) where
  verify-IsPinned :
      (own : Option Bytes) (other : Bytes) (number : Text) (now : ℕ) (s : Contacts)
      → IsPinned identity root s
      → IsPinned identity root (contact_verify sha256 own other number now s).1
  unfolding contact_verify compared pinned
  verify-IsPinned own other number now s h =
      elim (Result-cases (safety_number_with sha256 own other s)) [
        | inl (expected, e) ↦
            elim (Bool-cases (bytes_eq (normalize_number number) (normalize_number expected))) [
              | inl same ↦ rw e (
                  rw same (
                    update-IsPinned identity root (at by_identity other) (pinned comparison now) s
                      (λ r. refl) (λ r. refl) (λ r v. refl) h))
              | inr differs ↦ rw e (rw differs h)
            ]
        | inr (x, e) ↦ rw e h
      ]

  save-IsPinned :
      (other device : Bytes) (route : Text) (s : Contacts)
      → IsPinned identity root s
      → IsPinned identity root (contact_route_save other device route s []).1
  unfolding contact_route_save
  save-IsPinned other device route s h = elim (Bool-cases (is_some (contact other s))) [
    | inl e ↦ rw e (chosen-IsPinned identity root other s h)
    | inr e ↦ rw e h
  ]

  rename-IsPinned :
      (other : Bytes) (name : Text) (s : Contacts)
      → IsPinned identity root s
      → IsPinned identity root (contact_rename other name s).1
  unfolding contact_rename
  rename-IsPinned other name s h = elim (Bool-cases (is_some (contact other s))) [
    | inl e ↦ rw e (
        update-IsPinned identity root (at by_identity other) _ s (λ r. refl) (λ r. refl) (λ r v. v)
          h)
    | inr e ↦ rw e h
  ]

  step-IsPinned :
      (c : ContactStep) (s : Contacts)
      → IsPinned identity root s
      → IsPinned identity root (step sha256 c s)
  unfolding contact_accept contact_verified pinned
  step-IsPinned (see other root2 now) s h = see-IsPinned identity root other root2 now s h
  step-IsPinned (save_route other device route) s h = save-IsPinned other device route s h
  step-IsPinned (rename other name) s h = rename-IsPinned other name s h
  step-IsPinned (accept other) s h =
      update_contact-IsPinned identity root other chosen s (λ r. refl) (λ r. refl) (λ r v. v) h
  step-IsPinned (mark_verified other how now) s h =
      update_contact-IsPinned identity root other (pinned how now) s (λ r. refl) (λ r. refl)
        (λ r v. refl) h
  step-IsPinned (verify own other number now) s h = verify-IsPinned own other number now s h

  run-IsPinned :
      (steps : List ContactStep) (s : Contacts)
      → IsPinned identity root s
      → IsPinned identity root (run sha256 steps s)
  run-IsPinned [] s h = h
  run-IsPinned (c ∷ steps) s h = run-IsPinned steps (step sha256 c s) (step-IsPinned c s h)

-- The root key of a verified contact never changes: after any sequence of the operations that write
-- contacts the identity still has its root and is still verified, and an identity seen with another
-- root is refused, with nothing changed.
pub verified_root_stays :
    (sha256 : Bytes → Bytes) (identity root other : Bytes) (now : ℕ) (steps : List ContactStep)
    (s : Contacts)
    → IsPinned identity root s
    → IsPinned identity root (run sha256 steps s)
      × (bytes_eq root other ≡ false
          → contact_seen identity other now (run sha256 steps s)
            ≡ (err (contact_root_mismatch (hex_of identity)), run sha256 steps s))
unfolding contact_seen seen
verified_root_stays sha256 identity root other now steps s h =
    let after = run-IsPinned sha256 identity root steps s h in
    (
      after,
      λ differs.
          rw (after.1) (rw (ap (λ k. bytes_eq k other) after.2 ∙ differs) (rw (after.3) refl)),
    )
