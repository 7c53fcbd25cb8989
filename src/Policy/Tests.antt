-- ===== src/Policy/Tests.antt =====
-- Runs of the commit rule, and its theorems at concrete inputs.
use arveil.Base.{
  ℕ, ◌≡◌, refl, Bool, true, false, List, [], ◌∷◌, Option, none, some, Bytes, ok, err, inl, inr,
}
use arveil.Policy.{
  Mls, Member, Store, existing_member, new_member, lowest_active_leaf, revoked, policy_of,
  check_below, filter_proposals, unauthorized_committer, revoked_leaf_not_removed, external_commit,
}
use arveil.Policy.Committers.{committers_agree}

-- Proposals are the leaves that they remove.
abbrev mls : Mls
mls = record {
  Direction = Unit {0};
  GroupContext = ℕ;
  ProposalBundle = List ℕ;
  get_policy = λ creator. ok (some (lowest_active_leaf creator));
  to_remove = λ removed. removed;
  inner_filter = λ direction source roster context removed. removed;
}

abbrev member : ℕ → Member
member n = record { index = n; identifier = some (n ∷ []) }

abbrev roster : List Member
roster = member 0 ∷ member 1 ∷ member 2 ∷ []

-- The device of leaf 0 is revoked.
abbrev store : Option Store
store = some (record {
  peers =
      record { device_id = 0 ∷ []; revoked = true }
      ∷ record { device_id = 1 ∷ []; revoked = false }
      ∷ [];
  identity_devices = [];
})

lowest_active_commits :
    filter_proposals mls store tt (existing_member (member 1)) roster 0 (0 ∷ []) ≡ ok (0 ∷ [])
unfolding filter_proposals policy_of check_below revoked arveil.Base.bytes_eq
lowest_active_commits = refl

must_remove :
    filter_proposals mls store tt (existing_member (member 1)) roster 0 []
    ≡ err (revoked_leaf_not_removed 1 0 tt)
unfolding filter_proposals policy_of check_below revoked arveil.Base.bytes_eq
must_remove = refl

blocked :
    filter_proposals mls store tt (existing_member (member 2)) roster 0 (0 ∷ 1 ∷ [])
    ≡ err (unauthorized_committer 2 1 tt)
unfolding filter_proposals policy_of check_below revoked arveil.Base.bytes_eq
blocked = refl

external : filter_proposals mls store tt new_member roster 0 [] ≡ err external_commit
unfolding filter_proposals policy_of
external = refl

committers_agree_example : (member 1).index ≡ (member 1).index
unfolding filter_proposals policy_of check_below revoked arveil.Base.bytes_eq
committers_agree_example =
    committers_agree mls store roster 0 tt tt (member 1) (member 1) (0 ∷ []) (0 ∷ 2 ∷ []) (0 ∷ [])
      (0 ∷ 2 ∷ []) (inr (inl refl)) (inr (inl refl)) refl refl refl refl
