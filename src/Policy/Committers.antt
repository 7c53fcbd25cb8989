-- ===== src/Policy/Committers.antt =====
-- Who may commit, of core/crates/arveil-core/src/mls/policy.rs.
use arveil.Base.{
  ℕ, ◌<◌, ◌≡◌, ◌⊎◌, inl, inr, refl, sym, true, false, List, [], ◌∷◌, any, ltb, ◌==◌, Option, none,
  some, ok, arith, Result-cases, All, subst, ==_iff,
}
use arveil.Sql.{select}
use arveil.Policy.{
  Mls, GroupPolicy, Member, CommitSource, existing_member, new_member, Store, version, revoked,
  device_of, policy_of, check_below, filter_proposals,
}

-- A leaf below the committer stands in nobody's way when it is revoked and removed.
abbrev pub IsDisplaced : Option Store → ℕ → List ℕ → Member → Type 0
IsDisplaced conn committer removed m =
    m.index < committer
    → (revoked conn (device_of m) ≡ true) × (any (λ i. i == m.index) removed ≡ true)

-- What the inner rules make of the proposals, under a policy of this version, for a member that
-- commits with every leaf of the roster below it revoked and removed by this commit.
pub record IsAuthorized (mls : Mls) (conn : Option Store) (direction : mls.Direction)
    (source : CommitSource) (roster : List Member) (context : mls.GroupContext)
    (proposals out : mls.ProposalBundle) : Type 0 where
  pub policy : GroupPolicy
  pub carried : mls.get_policy context ≡ ok (some policy)
  pub current : policy.version ≡ version
  pub member : Member
  pub commits : source ≡ existing_member member
  pub displaces : All (IsDisplaced conn member.index (mls.to_remove proposals)) roster
  pub filtered : mls.inner_filter direction source roster context proposals ≡ out

module _ (mls : Mls) (conn : Option Store) (direction : mls.Direction) where
  check_below-All :
      (c : ℕ) (removed : List ℕ) (roster : List Member)
      → check_below mls conn direction c removed (select (λ m. ltb m.index c) roster) ≡ ok tt
      → All (IsDisplaced conn c removed) roster
  unfolding check_below
  check_below-All c removed [] h = tt
  check_below-All c removed (m ∷ roster) h =
      (ground arith, check_below-All c removed roster (ground arith))

  let_through :
      (source : CommitSource) (roster : List Member) (context : mls.GroupContext)
      (proposals out : mls.ProposalBundle)
      → filter_proposals mls conn direction source roster context proposals ≡ ok out
      → IsAuthorized mls conn direction source roster context proposals out
  unfolding filter_proposals policy_of
  let_through new_member roster context proposals out h =
      elim (Result-cases (mls.get_policy context)) [
        | inr (x, e) ↦ absurd (ground (arith, e))
        | inl (none, e) ↦ absurd (ground (arith, e))
        | inl (some policy, e) ↦ absurd (ground (arith, e, ==_iff policy.version version))
      ]
  let_through (existing_member m) roster context proposals out h =
      elim (Result-cases (mls.get_policy context)) [
        | inr (x, e) ↦ absurd (ground (arith, e))
        | inl (none, e) ↦ absurd (ground (arith, e))
        | inl (some policy, e) ↦
            elim (Result-cases (
              check_below mls conn direction m.index (mls.to_remove proposals)
                (select (λ q. ltb q.index m.index) roster))) [
                  | inr (x, e') ↦ absurd (ground (arith, e, e'))
                  | inl (t, e') ↦ record {
                    policy = policy;
                    carried = e;
                    current = ground (arith, e, ==_iff policy.version version);
                    member = m;
                    commits = refl;
                    displaces = check_below-All m.index (mls.to_remove proposals) roster e';
                    filtered = ground (arith, e, e');
                  }
                ]
      ]

-- The member stands in the roster.
abbrev pub Stands : Member → List Member → Type 0
Stands m [] = ⊥
Stands m (q ∷ roster) = (q ≡ m) ⊎ Stands m roster

Stands-All {κ} :
    (P : Member → Type κ) (m : Member) (roster : List Member) → Stands m roster → All P roster → P m
Stands-All P m [] s a = absurd s
Stands-All P m (q ∷ roster) (inl e) a = subst P e a.0
Stands-All P m (q ∷ roster) (inr s) a = Stands-All P m roster s a.1

module _ (mls : Mls) (conn : Option Store) (roster : List Member) (context : mls.GroupContext) where
  check_member :
      (direction : mls.Direction) (m q : Member) (proposals out : mls.ProposalBundle)
      → Stands m roster
      → filter_proposals mls conn direction (existing_member q) roster context proposals ≡ ok out
      → IsDisplaced conn q.index (mls.to_remove proposals) m
  check_member direction m q proposals out m_in h =
      let w = let_through mls conn direction (existing_member q) roster context proposals out h in
      let same : q ≡ w.member = cc w.commits in
      Stands-All (IsDisplaced conn q.index (mls.to_remove proposals)) m roster m_in (
        subst (λ k. All (IsDisplaced conn k.index (mls.to_remove proposals)) roster) (sym same)
          w.displaces)

  -- In one epoch, and among members that know of the same revocations, there is one committer: two
  -- members of the roster that are not revoked and whose commits are both let through, whatever
  -- they propose, are the same leaf.
  pub committers_agree :
      (direction direction' : mls.Direction) (m q : Member)
      (proposals proposals' out out' : mls.ProposalBundle)
      → Stands m roster
      → Stands q roster
      → revoked conn (device_of m) ≡ false
      → revoked conn (device_of q) ≡ false
      → filter_proposals mls conn direction (existing_member m) roster context proposals ≡ ok out
      → filter_proposals mls conn direction' (existing_member q) roster context proposals' ≡ ok out'
      → m.index ≡ q.index
  committers_agree direction direction' m q proposals proposals' out out' m_in q_in m_stays q_stays
        mh qh =
      ground (
        arith,
        check_member direction' m q proposals' out' m_in qh,
        check_member direction q m proposals out q_in mh,
      )
