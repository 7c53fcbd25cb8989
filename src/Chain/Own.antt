-- ===== src/Chain/Own.antt =====
-- What a profile remembers of its own manifests, in core/crates/arveil-core/src/client.rs.
use arveil.Base.{
  ℕ, ◌^◌, ◌≤◌, ◌<◌, ◌≡◌, refl, subst, ap, sym, ◌∙◌, true, false, List, [], ◌∷◌, ◌++◌, Option, none,
  some, Bytes, any, All, ltb, if◌then◌else◌, Bool-cases, Option-cases, Result-cases, inl, inr,
  arith, ok,
}
use arveil.Sql.Tables.{map_option}
use arveil.Cbor.{Serde}
use arveil.Signed.{Platform}
use arveil.Identity.{DeviceManifest, ManifestState, accept_manifest}
use arveil.Identity.Manifests.{keep, accept_manifest_iff}
use arveil.Chain.{
  ManifestRow, ProfileTables, peers_mark_revoked, mark_one, as_i64, newer, newest, state_of,
  manifest_state, is_new, has_sequence, insert_manifest, accepted_row, inserted, store_own,
  manifest_accept_own,
}

-- Rows whose sequence is not negative as an i64.
abbrev pub AreBounded : List ManifestRow → Type 0
AreBounded = All (λ r. r.sequence < 2 ^ 63)

as_i64-order : (a b : ℕ) → a < 2 ^ 63 → b < 2 ^ 63 → ltb (as_i64 a) (as_i64 b) ≡ ltb a b
as_i64-order a b h k = ground arith

newest-none : (P : ManifestRow → Type 0) (s : List ManifestRow) → newest s ≡ none → All P s
unfolding newest
newest-none P [] e = tt
newest-none P (r ∷ s) e = elim (Option-cases (newest s)) [
  | inl n ↦ absurd (ground (arith, e, n))
  | inr (q, n) ↦ absurd (ground (arith, e, n))
]

All-below :
    (s : List ManifestRow) (m n : ℕ)
    → m ≤ n
    → All (λ r. r.sequence ≤ m) s
    → All (λ r. r.sequence ≤ n) s
All-below [] m n h a = tt
All-below (r ∷ s) m n h a = (omega (arith, a.0), All-below s m n h a.1)

-- What is newest has the highest sequence.
newest-bound :
    (s : List ManifestRow) (q : ManifestRow)
    → AreBounded s
    → newest s ≡ some q
    → All (λ r. r.sequence ≤ q.sequence) s × (q.sequence < 2 ^ 63)
unfolding newest
newest-bound [] q b e = absurd (ground (arith, e))
newest-bound (r ∷ s) q b e = elim (Option-cases (newest s)) [
  | inl n ↦
      let same : some r ≡ some q = ap (newer r) (sym n) ∙ e in
      let seq : r.sequence ≡ q.sequence = ground (arith, same) in
      ((omega arith, newest-none (λ x. x.sequence ≤ q.sequence) s n), omega (arith, b.0))
  | inr (m, n) ↦
      let rest = newest-bound s m b.1 n in
      let order = as_i64-order r.sequence m.sequence b.0 rest.1 in
      let pick : (if ltb r.sequence m.sequence then some m else some r) ≡ some q =
        rw (sym order) (ap (newer r) (sym n) ∙ e) in
      elim (Bool-cases (ltb r.sequence m.sequence)) [
        | inl l ↦
            let seq : m.sequence ≡ q.sequence = ground (arith, pick, l) in
            (
              (ground (arith, seq, l), All-below s m.sequence q.sequence (omega arith) rest.0),
              omega (arith, rest.1),
            )
        | inr l ↦
            let seq : r.sequence ≡ q.sequence = ground (arith, pick, l) in
            let le : m.sequence ≤ q.sequence = ground (arith, seq, l) in
            ((omega arith, All-below s m.sequence q.sequence le rest.0), omega (arith, b.0))
      ]
]

newest-append :
    (s : List ManifestRow) (r : ManifestRow)
    → AreBounded s
    → r.sequence < 2 ^ 63
    → All (λ x. x.sequence < r.sequence) s
    → newest (s ++ r ∷ []) ≡ some r
unfolding newest
newest-append [] r b c l = refl
newest-append (x ∷ s) r b c l =
    ap (newer x) (newest-append s r b.1 c l.1)
    ∙ rw (as_i64-order x.sequence r.sequence b.0 c)
        (let t : ltb x.sequence r.sequence ≡ true = ground (arith, l.0) in rw t refl)

marks-manifest :
    (hashes : List Bytes) (s : ProfileTables)
    → (peers_mark_revoked hashes s).1.manifest ≡ s.manifest
unfolding peers_mark_revoked
marks-manifest [] s = refl
marks-manifest (h ∷ hashes) s = marks-manifest hashes (mark_one h s)

fresh :
    (owner : Bytes) (n : ℕ) (s : List ManifestRow)
    → All (λ r. r.sequence < n) s
    → any (has_sequence owner n) s ≡ false
fresh owner n [] l = refl
fresh owner n (r ∷ s) l = ground (arith, l.0, fresh owner n s l.1)

below :
    (s : List ManifestRow) (m n : ℕ)
    → m < n
    → All (λ r. r.sequence ≤ m) s
    → All (λ r. r.sequence < n) s
below [] m n h a = tt
below (r ∷ s) m n h a = (omega (arith, a.0), below s m n h a.1)

module _ (p : Platform) (manifests : Serde p.cbor DeviceManifest) (root : p.VerifyingKey)
    (signed : Bytes) where
  new_above :
      (k : ManifestState) (body : DeviceManifest) (state : ManifestState)
      → accept_manifest p manifests signed root (some k) ≡ ok (body, state)
      → is_new (some k) state ≡ true
      → k.sequence < state.sequence
  new_above k body state e new =
      let a = (accept_manifest_iff p manifests signed root (some k) body state).0 e in
      ground (arith, a.remembers, a.extends, new)

  old_same :
      (known : Option ManifestState) (body : DeviceManifest) (state : ManifestState)
      → accept_manifest p manifests signed root known ≡ ok (body, state)
      → is_new known state ≡ false
      → known ≡ some state
  old_same none body state e old = ground (arith, old)
  old_same (some k) body state e old =
      let a = (accept_manifest_iff p manifests signed root (some k) body state).0 e in
      ground (arith, a.remembers, a.extends, old)

  -- An accepted manifest that is new is above all rows.
  above :
      (s : ProfileTables) (body : DeviceManifest) (state : ManifestState)
      → AreBounded s.manifest
      → accept_manifest p manifests signed root (manifest_state s) ≡ ok (body, state)
      → is_new (manifest_state s) state ≡ true
      → All (λ r. r.sequence < state.sequence) s.manifest
  unfolding manifest_state
  above s body state b e new = elim (Option-cases (newest s.manifest)) [
    | inl n ↦ newest-none (λ r. r.sequence < state.sequence) s.manifest n
    | inr (q, n) ↦
        let known : manifest_state s ≡ some (state_of q) = ap (map_option state_of) n in
        let order =
          new_above (state_of q) body state
            (subst (λ k. accept_manifest p manifests signed root k ≡ ok (body, state)) known e)
            (subst (λ k. is_new k state ≡ true) known new) in
        below s.manifest q.sequence state.sequence order (newest-bound s.manifest q b n).0
  ]

  inserted-state :
      (s : ProfileTables) (body : DeviceManifest) (state : ManifestState)
      → AreBounded s.manifest
      → state.sequence < 2 ^ 63
      → All (λ r. r.sequence < state.sequence) s.manifest
      → inserted body (insert_manifest (accepted_row signed body state) s.manifest) s ≡ (
        ok (body, true),
        (peers_mark_revoked body.revoked_credential_hashes
            (record s { manifest = s.manifest ++ accepted_row signed body state ∷ [] })).1,
      )
  unfolding inserted insert_manifest
  inserted-state s body state b c l = rw (fresh body.identity_id state.sequence s.manifest l) refl

  store_own-state :
      (s : ProfileTables) (body : DeviceManifest) (state : ManifestState)
      → AreBounded s.manifest
      → state.sequence < 2 ^ 63
      → accept_manifest p manifests signed root (manifest_state s) ≡ ok (body, state)
      → ((store_own p manifests signed (manifest_state s) (ok (body, state)) s).0
          ≡ ok (body, is_new (manifest_state s) state))
        × (manifest_state (store_own p manifests signed (manifest_state s) (ok (body, state)) s).1
            ≡ some state)
  unfolding store_own manifest_state
  store_own-state s body state b c e = elim (Bool-cases (is_new (manifest_state s) state)) [
    | inl new ↦
        let l = above s body state b e new in
        let step = inserted-state s body state b c l in
        let rows =
          marks-manifest body.revoked_credential_hashes
            (record s { manifest = s.manifest ++ accepted_row signed body state ∷ [] }) in
        rw new (
          ap (λ t. t.0) step,
          ap (λ t. manifest_state t.1) step
              ∙ ap (λ m. map_option state_of (newest m)) rows
              ∙ ap (map_option state_of)
                  (newest-append s.manifest (accepted_row signed body state) b c l),
        )
    | inr old ↦ rw old (
      refl,
      ap (λ m. map_option state_of (newest m)) (marks-manifest body.revoked_credential_hashes s)
          ∙ old_same (manifest_state s) body state e old,
    )
  ]

  -- What a profile remembers of its own manifests follows the chain of its root: while sequences stay
  -- below 2^63, a manifest that `accept_manifest` accepts is remembered with its sequence and hash,
  -- and is reported as new exactly if it was not the one known, and a refused one changes nothing.
  pub manifest_state-keep :
      (s : ProfileTables)
      → AreBounded s.manifest
      → ((body : DeviceManifest) (state : ManifestState)
          → accept_manifest p manifests signed root (manifest_state s) ≡ ok (body, state)
          → state.sequence < 2 ^ 63)
      → (manifest_state (manifest_accept_own p manifests (some root) signed s).1
          ≡ keep p manifests root
              (manifest_state s)
              (accept_manifest p manifests signed root (manifest_state s)))
        × ((body : DeviceManifest) (state : ManifestState)
            → accept_manifest p manifests signed root (manifest_state s) ≡ ok (body, state)
            → (manifest_accept_own p manifests (some root) signed s).0
              ≡ ok (body, is_new (manifest_state s) state))
  unfolding manifest_accept_own store_own
  manifest_state-keep s b small = (
    elim (Result-cases (accept_manifest p manifests signed root (manifest_state s))) [
      | inl ((body, state), e) ↦ rw e ((store_own-state s body state b (small body state e) e).1)
      | inr (x, e) ↦ rw e refl
    ],
    λ body state e. rw e ((store_own-state s body state b (small body state e) e).0),
  )
