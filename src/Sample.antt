-- ===== src/Sample.antt =====
-- A small platform on which the examples run: keys are numbers, a signature repeats the key and
-- the length of the message, a value is written as its fields with their lengths in front.
use arveil.Base.{
  ℕ, zero, suc, ◌≡◌, ◌<◌, refl, subst, ap, ap₂, map, length-append, String, List, [], ◌∷◌, ◌++◌,
  none, some, Bytes, bytes_eq, bytes_eq_refl, ==_iff, ◌==◌, length, take, drop, replicate, Result,
  ok, err, arith,
}
use arveil.Cbor.{Value, leaf, Cbor, Serde, ReadsBack, sort_maps}
use arveil.Signed.{Platform, PlatformLaws, SignedObject}
use arveil.Identity.{DeviceCredential, DeviceManifest}
use arveil.Endpoints.{RealmEndpointList, Endpoint}

unfoldable pub put : Bytes → Bytes → Bytes
put field rest = length field ∷ (field ++ rest)

unfoldable pub get : Bytes → Bytes × Bytes
get [] = ([], [])
get (n ∷ rest) = (take n rest, drop n rest)

pub take-length : (xs ys : Bytes) → take (length xs) (xs ++ ys) ≡ xs
take-length [] ys = refl
take-length (x ∷ xs) ys = ap (◌∷◌ x) (take-length xs ys)

pub drop-length : (xs ys : Bytes) → drop (length xs) (xs ++ ys) ≡ ys
drop-length [] ys = refl
drop-length (x ∷ xs) ys = drop-length xs ys

pub get-put : (field rest : Bytes) → get (put field rest) ≡ (field, rest)
unfolding get put
get-put field rest = ap₂ (λ a b. (a, b)) (take-length field rest) (drop-length field rest)

unfoldable pub put_list : List Bytes → Bytes → Bytes
put_list [] rest = 0 ∷ rest
put_list (f ∷ fs) rest = 1 ∷ put f (put_list fs rest)

-- The list of fields in front of the bytes, read with fuel.
unfoldable pub get_list : ℕ → Bytes → List Bytes × Bytes
get_list zero bytes = ([], bytes)
get_list (suc fuel) [] = ([], [])
get_list (suc fuel) (zero ∷ rest) = ([], rest)
get_list (suc fuel) (suc n ∷ rest) =
    let (f, r) = get rest in let (fs, r') = get_list fuel r in (f ∷ fs, r')

get_list-put_list :
    (fs : List Bytes) (fuel : ℕ) (rest : Bytes)
    → length fs < fuel
    → get_list fuel (put_list fs rest) ≡ (fs, rest)
unfolding get_list put_list
get_list-put_list fs zero rest h = absurd (omega arith)
get_list-put_list [] (suc fuel) rest h = refl
get_list-put_list (f ∷ fs) (suc fuel) rest h =
    rw get-put (rw (get_list-put_list fs fuel rest (omega arith)))

length-put_list : (fs : List Bytes) (rest : Bytes) → length fs < length (put_list fs rest)
unfolding put_list put
length-put_list [] rest = omega arith
length-put_list (f ∷ fs) rest =
    omega (arith, length-append f (put_list fs rest), length-put_list fs rest)

abbrev pub put_object : SignedObject → Bytes
put_object o = put o.context (put o.body o.signature)

abbrev get_object : Bytes → SignedObject
get_object bytes =
    let (context, r) = get bytes in
    let (body, signature) = get r in
    record { context = context; body = body; signature = signature }

abbrev pub put_credential : DeviceCredential → Bytes
put_credential c =
    c.version
    ∷ c.validity.not_before
    ∷ c.validity.not_after
    ∷ c.allowed_uses
    ∷ put c.identity_root_public_key (
        put c.device_id (
          put c.mls_signature_public_key
            (put c.transport_noise_public_key c.envelope_hpke_public_key)))

abbrev get_credential : Bytes → Result String DeviceCredential
get_credential (version ∷ not_before ∷ not_after ∷ uses ∷ bytes) =
    let (root, r) = get bytes in
    let (device, r') = get r in
    let (mls, r'') = get r' in
    let (noise, hpke) = get r'' in
    ok (record {
      version = version;
      identity_root_public_key = root;
      device_id = device;
      mls_signature_public_key = mls;
      transport_noise_public_key = noise;
      envelope_hpke_public_key = hpke;
      validity = record { not_before = not_before; not_after = not_after };
      allowed_uses = uses;
    })
get_credential _ = err "credential"

abbrev pub put_manifest : DeviceManifest → Bytes
put_manifest m =
    m.version
    ∷ m.manifest_sequence
    ∷ put m.identity_id (
        put m.previous_manifest_hash
          (put_list m.active_credential_hashes (put_list m.revoked_credential_hashes [])))

abbrev get_manifest : Bytes → Result String DeviceManifest
get_manifest (version ∷ sequence ∷ bytes) =
    let (identity, r) = get bytes in
    let (previous, r') = get r in
    let (active, r'') = get_list (length r') r' in
    let (revoked, _) = get_list (length r'') r'' in
    ok (record {
      version = version;
      identity_id = identity;
      manifest_sequence = sequence;
      previous_manifest_hash = previous;
      active_credential_hashes = active;
      revoked_credential_hashes = revoked;
    })
get_manifest _ = err "manifest"

abbrev put_endpoint : Endpoint → Bytes
put_endpoint e = e.priority ∷ put e.kind e.url

abbrev get_endpoint : Bytes → Endpoint
get_endpoint [] = record { kind = []; url = []; priority = 0 }
get_endpoint (priority ∷ rest) =
    let (kind, url) = get rest in record { kind = kind; url = url; priority = priority }

get_endpoint-put_endpoint : (es : List Endpoint) → map get_endpoint (map put_endpoint es) ≡ es
get_endpoint-put_endpoint [] = refl
get_endpoint-put_endpoint (e ∷ es) = rw get-put (ap (◌∷◌ e) (get_endpoint-put_endpoint es))

abbrev pub put_endpoints : RealmEndpointList → Bytes
put_endpoints l =
    l.version
    ∷ l.sequence
    ∷ put l.realm_id (put l.realm_noise_public_key (put_list (map put_endpoint l.endpoints) []))

abbrev get_endpoints : Bytes → Result String RealmEndpointList
get_endpoints (version ∷ sequence ∷ bytes) =
    let (realm, r) = get bytes in
    let (noise, r') = get r in
    let (es, _) = get_list (length r') r' in
    ok (record {
      version = version;
      realm_id = realm;
      sequence = sequence;
      realm_noise_public_key = noise;
      endpoints = map get_endpoint es;
    })
get_endpoints _ = err "endpoints"

abbrev write : Value Bytes → Bytes
write (leaf bytes) = bytes
write _ = []

abbrev pub cbor : Cbor
cbor = record { Leaf = Bytes; into_writer = write }

abbrev pub serde : {A : Type 0} → (A → Bytes) → (Bytes → Result String A) → Serde cbor A
serde put_it get_it = record { serialized = λ a. ok (leaf (put_it a)); from_reader = get_it }

-- What reads back from its own bytes reads back from the written value.
pub serde-ReadsBack :
    {A : Type 0} (put_it : A → Bytes) (get_it : Bytes → Result String A)
    → ((a : A) → get_it (put_it a) ≡ ok a)
    → ReadsBack (serde put_it get_it)
unfolding sort_maps
serde-ReadsBack put_it get_it h = record {
  reads_back = λ a {v} e.
      let same : leaf (put_it a) ≡ v = cc e in
      subst (λ w. get_it (write (sort_maps write w)) ≡ ok a) same (h a);
}

abbrev pub platform : Platform
platform = record {
  cbor = cbor;
  objects = serde put_object (λ bytes. ok (get_object bytes));
  SigningKey = ℕ;
  VerifyingKey = ℕ;
  verifying_key = λ k. k;
  sign_bytes = λ k m. k ∷ replicate 63 (length m);
  verify_strict = λ k m s. bytes_eq s (k ∷ replicate 63 (length m));
  key_from_bytes = elim [ [] ↦ none | x ∷ xs ↦ some x ];
  as_bytes = λ k. k ∷ replicate 31 0;
  key_eq = ◌==◌;
  sha256 = λ bytes. bytes;
}

abbrev pub credentials : Serde cbor DeviceCredential
credentials = serde put_credential get_credential

abbrev pub manifests : Serde cbor DeviceManifest
manifests = serde put_manifest get_manifest

abbrev pub endpoint_lists : Serde cbor RealmEndpointList
endpoint_lists = serde put_endpoints get_endpoints

pub platform-laws : PlatformLaws platform
platform-laws = record {
  sign_length = λ k m. refl;
  sign_verifies = λ k m. bytes_eq_refl _;
  key_length = λ k. refl;
  key_reads_back = λ k. refl;
  key_eq_iff = ==_iff;
  objects_read_back = serde-ReadsBack put_object _ (λ o. simp get-put);
}

pub credentials-ReadsBack : ReadsBack credentials
credentials-ReadsBack = serde-ReadsBack put_credential get_credential (λ c. simp get-put)

pub manifests-ReadsBack : ReadsBack manifests
manifests-ReadsBack =
    serde-ReadsBack put_manifest get_manifest
      (λ m. simp get-put (simp (get_list-put_list, length-put_list)))

pub endpoint_lists-ReadsBack : ReadsBack endpoint_lists
endpoint_lists-ReadsBack =
    serde-ReadsBack put_endpoints get_endpoints
      (λ l. simp get-put (simp (get_list-put_list, length-put_list, get_endpoint-put_endpoint)))
