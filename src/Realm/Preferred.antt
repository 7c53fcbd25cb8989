-- ===== src/Realm/Preferred.antt =====
-- The route that a profile prefers, of core/crates/arveil-core/src/client.rs.
use arveil.Base.{
  ℕ, ◌≤◌, ◌<◌, ◌≡◌, ◌⊎◌, refl, ap, subst, sym, ◌∙◌, true, false, List, [], ◌∷◌, ◌++◌, Option, none,
  some, All, ltb, Bool-cases, inl, inr, arith,
}
use arveil.Sql.{select}
use arveil.Cbor.{Serde}
use arveil.Signed.{Platform}
use arveil.Endpoints.{Endpoint, RealmEndpointList}
use arveil.Realm.{
  lesser, min_by_priority, is_client, preferred, url_or, StoredRealm, preferred_endpoint_url,
}

-- A client endpoint of a list below which no client endpoint goes, the first of these.
pub record IsPreferred (l : List Endpoint) (e : Endpoint) : Type 0 where
  pub before : List Endpoint
  pub after : List Endpoint
  pub splits : l ≡ before ++ e ∷ after
  pub client : is_client e ≡ true
  pub lowest : All (λ f. is_client f ≡ true → e.priority ≤ f.priority) l
  pub first : All (λ f. is_client f ≡ true → e.priority < f.priority) before

-- What the list of a realm says of the route: no client endpoint at all, or the preferred one.
abbrev pub Route : List Endpoint → Option Endpoint → Type 0
Route l o =
    ((o ≡ none) × All (λ f. is_client f ≡ false) l)
    ⊎ ((e : Endpoint) × (o ≡ some e) × IsPreferred l e)

All-weaker :
    (l : List Endpoint) (m n : ℕ)
    → m ≤ n
    → All (λ f. is_client f ≡ true → n ≤ f.priority) l
    → All (λ f. is_client f ≡ true → m ≤ f.priority) l
All-weaker [] m n h a = tt
All-weaker (f ∷ l) m n h a = (λ c. let low = a.0 c in omega (arith, low), All-weaker l m n h a.1)

All-none :
    (l : List Endpoint) (n : ℕ)
    → All (λ f. is_client f ≡ false) l
    → All (λ f. is_client f ≡ true → n ≤ f.priority) l
All-none [] n a = tt
All-none (f ∷ l) n a = (λ c. absurd (ground (arith, a.0, c)), All-none l n a.1)

behind :
    (x e : Endpoint) (l : List Endpoint)
    → (is_client x ≡ true → e.priority < x.priority)
    → IsPreferred l e
    → IsPreferred (x ∷ l) e
behind x e l h i = record {
  before = x ∷ i.before;
  after = i.after;
  splits = ap (◌∷◌ x) i.splits;
  client = i.client;
  lowest = (λ c. let below = h c in omega (arith, below), i.lowest);
  first = (h, i.first);
}

in_front :
    (x : Endpoint) (l : List Endpoint)
    → is_client x ≡ true
    → All (λ f. is_client f ≡ true → x.priority ≤ f.priority) l
    → IsPreferred (x ∷ l) x
in_front x l c a = record {
  before = [];
  after = l;
  splits = refl;
  client = c;
  lowest = (λ _. omega arith, a);
  first = tt;
}

step-Route :
    (x : Endpoint) (l : List Endpoint) (o : Option Endpoint)
    → is_client x ≡ true
    → Route l o
    → Route (x ∷ l) (lesser x o)
step-Route x l o c (inl (n, a)) = inr (x, ap (lesser x) n, in_front x l c (All-none l x.priority a))
step-Route x l o c (inr (e, n, i)) = elim (Bool-cases (ltb e.priority x.priority)) [
  | inl b ↦ inr (e, rw n (rw b refl), behind x e l (λ _. ground (arith, b)) i)
  | inr b ↦ inr (
    x,
    rw n (rw b refl),
    in_front x l c (All-weaker l x.priority e.priority (ground (arith, b)) i.lowest),
  )
]

preferred-Route : (l : List Endpoint) → Route l (min_by_priority (select is_client l))
unfolding min_by_priority
preferred-Route [] = inl (refl, tt)
preferred-Route (x ∷ l) = elim (Bool-cases (is_client x)) [
  | inl c ↦
      let kept : min_by_priority (select is_client (x ∷ l))
          ≡ lesser x (min_by_priority (select is_client l)) =
        rw c refl in
      subst (Route (x ∷ l)) (sym kept)
        (step-Route x l (min_by_priority (select is_client l)) c (preferred-Route l))
  | inr c ↦ elim (preferred-Route l) [
    | inl (n, a) ↦ inl (rw c n, (c, a))
    | inr (e, n, i) ↦ inr (e, rw c n, behind x e l (λ t. absurd (ground (arith, c, t))) i)
  ]
]

-- The route that a profile prefers is that of the signed list: the first of its client endpoints with
-- the lowest priority, never one for administration. The URL of the enrollment serves only where
-- the list has no client endpoint.
pub preferred_endpoint_url_lem :
    (p : Platform) (lists : Serde p.cbor RealmEndpointList) (r : StoredRealm p lists)
    (list : RealmEndpointList)
    → r.endpoint_list ≡ some list
    → ((preferred_endpoint_url p lists r ≡ r.bootstrap_url)
        × All (λ f. is_client f ≡ false) list.endpoints)
      ⊎ ((e : Endpoint) × (preferred_endpoint_url p lists r ≡ e.url) × IsPreferred list.endpoints e)
unfolding preferred_endpoint_url preferred
preferred_endpoint_url_lem p lists r list h =
    let same = ap (λ o. url_or r.bootstrap_url (preferred o)) h in
    elim (preferred-Route list.endpoints) [
      | inl (n, a) ↦ inl (same ∙ ap (url_or r.bootstrap_url) n, a)
      | inr (e, n, i) ↦ inr (e, same ∙ ap (url_or r.bootstrap_url) n, i)
    ]
