-- ===== src/Chain/Revoked.antt =====
-- What the revocations of accepted manifests do to the peers of
-- core/crates/arveil-core/src/client.rs, and the group policy of mls/policy.rs that reads them.
use arveil.Base.{
  ◌+◌, ◌≤◌, ◌≡◌, refl, ap, ap₂, sym, ◌∙◌, Bool, true, ◌&&◌, ◌||◌, List, [], ◌∷◌, some, Bytes,
  bytes_eq, bytes_eq_iff, any, All, ltb, ◌==◌, map, Bool-cases, inl, inr, arith,
}
use arveil.Sql.{update_where, count_where, any-update_where, All-update_where}
use arveil.Policy.{Store, is_revoked, revoked}
use arveil.Chain.{
  PeerRow, OwnDeviceRow, ProfileTables, is_revoked_peer, is_revoked_own, device_revoked,
  holds_valid, revoke_peer, revoke_own, mark_one, peers_mark_revoked,
}

-- What the policy reads of the two tables.
abbrev pub policy_store : ProfileTables → Store
policy_store s = record {
  peers = map (λ r. record { device_id = r.device_id; revoked = r.revoked == 1 }) s.peers;
  identity_devices =
      map (λ r. record { device_id = r.device_id; revoked = r.revoked == 1 }) s.identity_devices;
}

count-peers :
    (d : Bytes) (s : List PeerRow)
    → count_where
        (is_revoked d)
        (map (λ r. record { device_id = r.device_id; revoked = r.revoked == 1 }) s)
      ≡ count_where (is_revoked_peer d) s
count-peers d [] = refl
count-peers d (r ∷ s) = ground (arith, count-peers d s)

count-own :
    (d : Bytes) (s : List OwnDeviceRow)
    → count_where
        (is_revoked d)
        (map (λ r. record { device_id = r.device_id; revoked = r.revoked == 1 }) s)
      ≡ count_where (is_revoked_own d) s
count-own d [] = refl
count-own d (r ∷ s) = ground (arith, count-own d s)

-- `device_revoked` asks the question that the group policy asks of the same tables.
pub device_revoked-revoked :
    (d : Bytes) (s : ProfileTables) → device_revoked d s ≡ revoked (some (policy_store s)) d
unfolding device_revoked revoked
device_revoked-revoked d s =
    ap (ltb 0) (sym (ap₂ ◌+◌ (count-peers d s.peers) (count-own d s.identity_devices)))

-- A table in which the flag is a Boolean.
abbrev pub HasFlags : ProfileTables → Type 0
HasFlags s = All (λ r. r.revoked ≤ 1) s.peers

abbrev pub is_marked : Bytes → ProfileTables → Bool
is_marked d s = any (is_revoked_peer d) s.peers || any (is_revoked_own d) s.identity_devices

count-any : {A : Type 0} (q : A → Bool) (s : List A) → ltb 0 (count_where q s) ≡ any q s
count-any q [] = refl
count-any q (r ∷ s) = ground (arith, count-any q s)

pub device_revoked-is_marked : (d : Bytes) (s : ProfileTables) → device_revoked d s ≡ is_marked d s
unfolding device_revoked
device_revoked-is_marked d s =
    ground (
      arith,
      count-any (is_revoked_peer d) s.peers,
      count-any (is_revoked_own d) s.identity_devices,
    )

-- An update that never takes a mark away.
any-grows :
    {A : Type 0} (q p : A → Bool) (f : A → A) (s : List A)
    → ((r : A) → q r ≡ true → q (f r) ≡ true)
    → any q s ≡ true
    → any q (update_where p f s) ≡ true
any-grows q p f [] h e = e
any-grows q p f (r ∷ s) h e = elim (Bool-cases (q r)) [
  | inl t ↦ ground (arith, t, h r t)
  | inr t ↦ ground (arith, e, t, any-grows q p f s h)
]

mark_one-keeps :
    (d h : Bytes) (s : ProfileTables) → is_marked d s ≡ true → is_marked d (mark_one h s) ≡ true
mark_one-keeps d h s e =
    let peers =
      any-grows (is_revoked_peer d) (holds_valid h) revoke_peer s.peers
        (λ r t. ground (arith, t)) in
    let own =
      any-grows (is_revoked_own d) (λ r. bytes_eq r.credential_hash h) revoke_own s.identity_devices
        (λ r t. ground (arith, t)) in
    elim (Bool-cases (any (is_revoked_peer d) s.peers)) [
      | inl t ↦ ground (arith, peers t)
      | inr t ↦ ground (arith, own (ground (arith, e, t)))
    ]

pub marks-keep :
    (d : Bytes) (hashes : List Bytes) (s : ProfileTables)
    → is_marked d s ≡ true
    → is_marked d (peers_mark_revoked hashes s).1 ≡ true
unfolding peers_mark_revoked
marks-keep d [] s e = e
marks-keep d (h ∷ hashes) s e = marks-keep d hashes (mark_one h s) (mark_one-keeps d h s e)

-- A device that a peer row knows with this credential.
abbrev pub knows : Bytes → Bytes → ProfileTables → Bool
knows d h s = any (λ r. bytes_eq r.device_id d && bytes_eq r.credential_hash h) s.peers

marks-peer :
    (d h : Bytes) (s : List PeerRow)
    → All (λ r. r.revoked ≤ 1) s
    → any (λ r. bytes_eq r.device_id d && bytes_eq r.credential_hash h) s ≡ true
    → any (is_revoked_peer d) (update_where (holds_valid h) revoke_peer s) ≡ true
marks-peer d h [] w e = e
marks-peer d h (r ∷ s) w e = ground (arith, e, w.0, marks-peer d h s w.1)

pub marks-listed :
    (d h : Bytes) (hashes : List Bytes) (s : ProfileTables)
    → HasFlags s
    → knows d h s ≡ true
    → any (λ x. bytes_eq x h) hashes ≡ true
    → is_marked d (peers_mark_revoked hashes s).1 ≡ true
unfolding peers_mark_revoked
marks-listed d h [] s w k e = ground (arith, e)
marks-listed d h (x ∷ hashes) s w k e = elim (Bool-cases (bytes_eq x h)) [
  | inl same ↦
      let marked = marks-peer d h s.peers w k in
      marks-keep d hashes (mark_one x s) (rw ((bytes_eq_iff x h).0 same) (ground (arith, marked)))
  | inr differs ↦
      marks-listed d h hashes (mark_one x s)
        (All-update_where (λ r. r.revoked ≤ 1) (holds_valid x) revoke_peer s.peers
          (λ r b. omega arith) w)
        (any-update_where (λ r. bytes_eq r.device_id d && bytes_eq r.credential_hash h)
            (holds_valid x) revoke_peer s.peers (λ r. refl)
          ∙ k)
        (ground (arith, e, differs))
]
