-- ===== src/Endpoints/Laws.antt =====
-- What `verify` of core/crates/arveil-core/src/channel/endpoints.rs accepts.
use arveil.Base.{
  false, ℕ, ◌<◌, ◌≤◌, ◌≡◌, ◌≢◌, ◌↔◌, refl, [], Option, none, some, Bytes, bytes_eq_iff, ok, err,
  arith, Result-cases, inl, inr,
}
use arveil.Cbor.{Serde}
use arveil.Signed.{Platform, verify_value}
use arveil.Endpoints.{RealmEndpointList, context, version, is_rollback, verify, empty, rollback}

abbrev pub Exceeds : ℕ → Option ℕ → Type 0
Exceeds sequence none = Unit
Exceeds sequence (some known) = known < sequence

is_rollback_iff :
    (sequence : ℕ) (known : Option ℕ)
    → (is_rollback sequence known ≡ false) ↔ Exceeds sequence known
is_rollback_iff sequence none = (λ _. tt, λ _. refl)
is_rollback_iff sequence (some known) = ground arith

module _ (p : Platform) (lists : Serde p.cbor RealmEndpointList) where
  -- What an accepted list is.
  pub record IsAccepted (signed : Bytes) (key : p.VerifyingKey) (realm : Bytes) (known : Option ℕ)
      (list : RealmEndpointList) : Type 0 where
    pub verified : verify_value p lists signed context key ≡ ok list
    pub version_is : list.version ≡ version
    pub realm_is : list.realm_id ≡ realm
    pub newer : Exceeds list.sequence known
    pub some_endpoint : list.endpoints ≢ []

  module _ (signed : Bytes) (key : p.VerifyingKey) (realm : Bytes) (known : Option ℕ)
      (list : RealmEndpointList) where
    verify-IsAccepted :
        verify p lists signed key realm known ≡ ok list → IsAccepted signed key realm known list
    unfolding verify
    verify-IsAccepted h = elim (Result-cases (verify_value p lists signed context key)) [
      | inl (l, e) ↦ record {
        verified = ground (arith, e);
        version_is = ground (arith, e);
        realm_is = ground (arith, e, bytes_eq_iff l.realm_id realm);
        newer = (is_rollback_iff list.sequence known).0 (ground (arith, e));
        some_endpoint = ground (arith, e);
      }
      | inr (x, e) ↦ absurd (ground (arith, e))
    ]

    IsAccepted-verify :
        IsAccepted signed key realm known list → verify p lists signed key realm known ≡ ok list
    unfolding verify
    IsAccepted-verify a = rw (a.verified) (
        ground (
          arith,
          (is_rollback_iff list.sequence known).1 a.newer,
          bytes_eq_iff list.realm_id realm,
        ))

    -- `verify` accepts exactly the lists that are signed by the realm key for this purpose, have
    -- the version, name the expected realm and at least one endpoint, and whose sequence exceeds
    -- the highest accepted so far.
    pub list_verify_iff :
        (verify p lists signed key realm known ≡ ok list) ↔ IsAccepted signed key realm known list
    list_verify_iff = (verify-IsAccepted, IsAccepted-verify)

  -- A genuine list of the expected realm and version with a sequence that was already accepted,
  -- or a lower one, is a rollback; one with no endpoint, and a newer sequence, is refused as empty.
  pub list_verify_refuses :
      (signed : Bytes) (key : p.VerifyingKey) (realm : Bytes) (known : ℕ) (list : RealmEndpointList)
      → verify_value p lists signed context key ≡ ok list
      → list.version ≡ version
      → list.realm_id ≡ realm
      → (list.sequence ≤ known
          → verify p lists signed key realm (some known) ≡ err (rollback list.sequence known))
        × (known < list.sequence
            → list.endpoints ≡ []
            → verify p lists signed key realm (some known) ≡ err empty)
  unfolding verify
  list_verify_refuses signed key realm known list e v r = (
    λ le. rw e (ground (arith, bytes_eq_iff list.realm_id realm)),
    λ lt none_left. rw e (ground (arith, bytes_eq_iff list.realm_id realm)),
  )
