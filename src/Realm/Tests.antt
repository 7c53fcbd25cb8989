-- ===== src/Realm/Tests.antt =====
-- Runs of the realm and of the enrollment, and the theorems at concrete inputs.
use arveil.Base.{
  ℕ, ◌≡◌, ◌↔◌, ◌⊎◌, refl, Bool, true, false, List, [], ◌∷◌, Option, none, some, Bytes, All, any,
  ascii, ok, err, ◌==◌, if◌then◌else◌,
}
use arveil.Sample.{
  platform, endpoint_lists, put, get, put_list, get_list, put_object, put_endpoints,
}
use arveil.Signed.{signing_input}
use arveil.Endpoints.{Endpoint, RealmEndpointList, context}
use arveil.Endpoints.Laws.{Exceeds}
use arveil.Client.{no_device}
use arveil.Realm.{
  Failure, error, redeeming, redeemed, EnrollmentProgress, RealmTables, enrollment, enrollment_save,
  invitation_rejected_enrollment, is_client, StoredRealm, preferred_endpoint_url, realm, realm_save,
  realm_mark_enrolled, realm_accept_endpoint_list,
}
use arveil.Realm.Accepted.{accept_endpoint_list_lem}
use arveil.Realm.Enrollment.{rejection_lem}
use arveil.Realm.Preferred.{IsPreferred, preferred_endpoint_url_lem}

abbrev home : Bytes
home = 1 ∷ 1 ∷ []

abbrev endpoint : Bytes → Bytes → ℕ → Endpoint
endpoint kind url priority = record { kind = kind; url = url; priority = priority }

abbrev home_list : RealmEndpointList
home_list = record {
  version = 1;
  realm_id = home;
  sequence = 5;
  realm_noise_public_key = 9 ∷ [];
  endpoints =
      endpoint (ascii "admin") (ascii "a") 0
      ∷ endpoint (ascii "lan") (ascii "l") 2
      ∷ endpoint (ascii "public") (ascii "p") 1
      ∷ [];
}

abbrev signed : Bytes
signed = put_object (record {
  context = context;
  body = put_endpoints home_list;
  signature = platform.sign_bytes 7 (signing_input context (put_endpoints home_list));
})

abbrev new_profile : RealmTables
new_profile = record { realms = []; enrollment = none }

abbrev joined : RealmTables
joined = realm_save platform endpoint_lists home 7 (8 ∷ []) (ascii "b") new_profile

abbrev joined_realm : StoredRealm platform endpoint_lists
joined_realm = record {
  realm_id = home;
  signing_public = 7;
  noise_public = 8 ∷ [];
  bootstrap_url = ascii "b";
  endpoint_list = none;
  enrolled = false;
}

abbrev listed_realm : StoredRealm platform endpoint_lists
listed_realm = record joined_realm { endpoint_list = some home_list; noise_public = 9 ∷ [] }

no_realm_yet :
    (realm_accept_endpoint_list platform endpoint_lists home signed new_profile).0
    ≡ err (error no_device)
unfolding realm_accept_endpoint_list realm
no_realm_yet = refl

joined_is_read : realm platform endpoint_lists joined ≡ ok (some joined_realm)
unfolding realm realm_save arveil.Realm.realm_of arveil.Realm.stored_key arveil.Realm.stored_list
joined_is_read = refl

accepts : (realm_accept_endpoint_list platform endpoint_lists home signed joined).0 ≡ ok home_list
unfolding realm_accept_endpoint_list realm realm_save arveil.Realm.realm_of arveil.Realm.stored_key
    arveil.Realm.stored_list arveil.Realm.acceptable arveil.Realm.known_sequence
    arveil.Endpoints.verify arveil.Signed.verify_value arveil.Signed.verify arveil.Signed.peek
    arveil.Base.bytes_eq get get_list put put_list signing_input arveil.Signed.u16_be
accepts = refl

a_client_route_is_preferred :
    preferred_endpoint_url platform endpoint_lists listed_realm ≡ ascii "p"
unfolding preferred_endpoint_url arveil.Realm.preferred arveil.Realm.min_by_priority
    arveil.Base.bytes_eq
a_client_route_is_preferred = refl

accept_endpoint_list_lem_example :
    ((none ≡ some home_list) ⊎ Exceeds home_list.sequence none)
    × (realm platform endpoint_lists
          (realm_accept_endpoint_list platform endpoint_lists home signed joined).1
        ≡ ok (some listed_realm))
    × (realm_accept_endpoint_list platform endpoint_lists home signed
          (realm_accept_endpoint_list platform endpoint_lists home signed joined).1
        ≡ (ok home_list, (realm_accept_endpoint_list platform endpoint_lists home signed joined).1))
accept_endpoint_list_lem_example =
    (accept_endpoint_list_lem platform endpoint_lists home signed joined joined_realm home_list
        (error no_device)).0
      joined_is_read refl accepts

preferred_endpoint_url_lem_example :
    ((preferred_endpoint_url platform endpoint_lists listed_realm ≡ ascii "b")
      × All (λ f. is_client f ≡ false) home_list.endpoints)
    ⊎ ((e : Endpoint) × (preferred_endpoint_url platform endpoint_lists listed_realm ≡ e.url)
        × IsPreferred home_list.endpoints e)
preferred_endpoint_url_lem_example =
    preferred_endpoint_url_lem platform endpoint_lists listed_realm home_list refl

abbrev progress : EnrollmentProgress
progress = record {
  realm_id = home;
  invite_hash = 3 ∷ [];
  credential_hash = 4 ∷ [];
  phase = redeeming;
}

a_rejection_releases :
    enrollment (invitation_rejected_enrollment (3 ∷ []) (enrollment_save progress joined)).1 ≡ none
unfolding enrollment enrollment_save invitation_rejected_enrollment arveil.Realm.rejected realm_save
    arveil.Realm.stored arveil.Base.bytes_eq
a_rejection_releases = refl

an_enrolled_realm_keeps :
    (invitation_rejected_enrollment
      (3 ∷ [])
      (enrollment_save progress (realm_mark_enrolled home joined))).0
    ≡ false
unfolding enrollment_save invitation_rejected_enrollment arveil.Realm.rejected realm_save
    realm_mark_enrolled arveil.Realm.stored arveil.Base.bytes_eq
an_enrolled_realm_keeps = refl

rejection_lem_example :
    (enrollment (enrollment_save progress joined) ≡ some progress)
    × ((enrollment_save progress joined).realms ≡ joined.realms)
    × (((invitation_rejected_enrollment (3 ∷ []) (enrollment_save progress joined)).0 ≡ true) ↔ (
        (progress.invite_hash ≡ 3 ∷ [])
        × (progress.phase ≡ redeeming)
        × (any (λ q. q.enrolled == 1) joined.realms ≡ false)))
    × (enrollment (invitation_rejected_enrollment (3 ∷ []) (enrollment_save progress joined)).1 ≡ (
        if (invitation_rejected_enrollment (3 ∷ []) (enrollment_save progress joined)).0
        then none
        else some progress))
    × ((invitation_rejected_enrollment (3 ∷ []) (enrollment_save progress joined)).1.realms
        ≡ joined.realms)
    × ((invitation_rejected_enrollment (3 ∷ []) (enrollment_save progress joined)).0 ≡ false
        → (invitation_rejected_enrollment (3 ∷ []) (enrollment_save progress joined)).1
          ≡ enrollment_save progress joined)
    × (joined.enrollment ≡ none → invitation_rejected_enrollment (3 ∷ []) joined ≡ (false, joined))
rejection_lem_example = rejection_lem (3 ∷ []) progress joined
