-- ===== src/Realm.antt =====
-- The realm of a profile and the enrollment in it, of core/crates/arveil-core/src/client.rs, with the
-- release of a rejected enrollment of core/crates/arveil-core/src/invitation_store.rs. The row of
-- `enrollment` is the only one that its CHECK allows. A stored key that is no key makes the source
-- panic, which is a failure here.
mod Reading
mod Unchanged
pub mod Accepted
pub mod Enrollment
pub mod Preferred
mod Tests
use arveil.Base.{
  ℕ, ◌≡◌, Bool, true, false, not, ◌&&◌, ◌||◌, String, str_eq, List, [], ◌∷◌, ◌++◌, Option, none,
  some, Bytes, ascii, bytes_eq, any, length, ltb, ◌==◌, if◌then◌else◌, Result, ok, err, map_err,
  ok_or, ◌>>=◌, ◌>>◌,
}
use arveil.Sql.{update_where, select}
use arveil.Sql.Tables.{Keyed, by_blob, map_option, at, row_at}
use arveil.Cbor.{Serde}
use arveil.Signed.{Platform}
use arveil.Endpoints.{Endpoint, RealmEndpointList, verify}
use arveil.Client.{ClientError, endpoint_list, no_device}

pub data Failure : Type 0 where
  error : ClientError → Failure
  panic : Failure

pub data EnrollmentPhase : Type 0 where
  redeeming redeemed endpoints complete : EnrollmentPhase

unfoldable pub stored : EnrollmentPhase → String
stored redeeming = "redeeming"
stored redeemed = "redeemed"
stored endpoints = "endpoints"
stored complete = "complete"

unfoldable pub from_stored : String → EnrollmentPhase
from_stored value =
    if str_eq value "redeemed"
    then redeemed
    else if str_eq value "endpoints"
    then endpoints
    else if str_eq value "complete"
    then complete
    else redeeming

pub record EnrollmentProgress : Type 0 where
  pub realm_id : Bytes
  pub invite_hash : Bytes
  pub credential_hash : Bytes
  pub phase : EnrollmentPhase

-- The row of `enrollment`.
pub record EnrollmentRow : Type 0 where
  pub realm_id : Bytes
  pub invite_hash : Bytes
  pub credential_hash : Bytes
  pub phase : String

-- A row of `realm`.
pub record RealmRow : Type 0 where
  pub realm_id : Bytes
  pub signing_public : Bytes
  pub noise_public : Bytes
  pub bootstrap_url : Bytes
  pub signed_list : Option Bytes
  pub enrolled : ℕ

pub record RealmTables : Type 0 where
  pub realms : List RealmRow
  pub enrollment : Option EnrollmentRow

abbrev pub by_realm : Keyed Bytes RealmRow
by_realm = by_blob (λ r. r.realm_id)

unfoldable pub enrollment : RealmTables → Option EnrollmentProgress
enrollment s =
    map_option
      (λ r. record {
        realm_id = r.realm_id;
        invite_hash = r.invite_hash;
        credential_hash = r.credential_hash;
        phase = from_stored r.phase;
      })
      s.enrollment

unfoldable pub enrollment_save : EnrollmentProgress → RealmTables → RealmTables
enrollment_save progress s = record s {
  enrollment = some (record {
    realm_id = progress.realm_id;
    invite_hash = progress.invite_hash;
    credential_hash = progress.credential_hash;
    phase = stored progress.phase;
  });
}

-- `invite_hash=?1 AND phase='redeeming' AND NOT EXISTS(…)`
abbrev pub is_rejected : Bytes → RealmTables → EnrollmentRow → Bool
is_rejected id s r =
    bytes_eq r.invite_hash id
    && str_eq r.phase "redeeming"
    && not (any (λ q. q.enrolled == 1) s.realms)

unfoldable pub rejected : Bytes → RealmTables → Option EnrollmentRow → Bool × RealmTables
rejected id s none = (false, s)
rejected id s (some r) =
    if is_rejected id s r then (true, record s { enrollment = none }) else (false, s)

unfoldable pub invitation_rejected_enrollment : Bytes → RealmTables → Bool × RealmTables
invitation_rejected_enrollment id s = rejected id s s.enrollment

unfoldable pub realm_mark_enrolled : Bytes → RealmTables → RealmTables
realm_mark_enrolled realm_id s = record s {
  realms = update_where (at by_realm realm_id) (λ r. record r { enrolled = 1 }) s.realms;
}

-- `min_by_key(|endpoint| endpoint.priority)`: the first of the smallest.
abbrev pub lesser : Endpoint → Option Endpoint → Option Endpoint
lesser e none = some e
lesser e (some f) = if ltb f.priority e.priority then some f else some e

unfoldable pub min_by_priority : List Endpoint → Option Endpoint
min_by_priority [] = none
min_by_priority (e ∷ l) = lesser e (min_by_priority l)

abbrev pub is_client : Endpoint → Bool
is_client e = not (bytes_eq e.kind (ascii "admin"))

unfoldable pub preferred : Option RealmEndpointList → Option Endpoint
preferred none = none
preferred (some list) = min_by_priority (select is_client list.endpoints)

abbrev pub url_or : Bytes → Option Endpoint → Bytes
url_or bootstrap none = bootstrap
url_or bootstrap (some e) = e.url

module _ (p : Platform) (lists : Serde p.cbor RealmEndpointList) where
  pub record StoredRealm : Type 0 where
    pub realm_id : Bytes
    pub signing_public : p.VerifyingKey
    pub noise_public : Bytes
    pub bootstrap_url : Bytes
    pub endpoint_list : Option RealmEndpointList
    pub enrolled : Bool

  unfoldable pub preferred_endpoint_url : StoredRealm → Bytes
  preferred_endpoint_url r = url_or r.bootstrap_url (preferred r.endpoint_list)

  -- `expect`s on the length and on the key
  unfoldable pub stored_key : Bytes → Result Failure p.VerifyingKey
  stored_key b = if length b == 32 then ok_or (p.key_from_bytes b) panic else err panic

  unfoldable pub stored_list :
      p.VerifyingKey → Bytes → Option Bytes → Result Failure (Option RealmEndpointList)
  stored_list key realm_id none = ok none
  stored_list key realm_id (some bytes) = do
    list ← map_err (λ x. error (endpoint_list x)) (verify p lists bytes key realm_id none)
    ok (some list)

  unfoldable pub realm_of : RealmRow → Result Failure StoredRealm
  realm_of r = do
    key ← stored_key r.signing_public
    list ← stored_list key r.realm_id r.signed_list
    ok (record {
      realm_id = r.realm_id;
      signing_public = key;
      noise_public = r.noise_public;
      bootstrap_url = r.bootstrap_url;
      endpoint_list = list;
      enrolled = not (r.enrolled == 0);
    })

  abbrev pub found_realm : List RealmRow → Result Failure (Option StoredRealm)
  found_realm [] = ok none
  found_realm (r ∷ _) = do realm ← realm_of r; ok (some realm)

  -- `LIMIT 1`
  unfoldable pub realm : RealmTables → Result Failure (Option StoredRealm)
  realm s = found_realm s.realms

  unfoldable pub realm_save : Bytes → p.VerifyingKey → Bytes → Bytes → RealmTables → RealmTables
  realm_save realm_id signing_public noise_public bootstrap_url s = record s {
    realms =
        if any (at by_realm realm_id) s.realms
        then update_where (at by_realm realm_id)
            (λ r. record r {
              signing_public = p.as_bytes signing_public;
              noise_public = noise_public;
              bootstrap_url = bootstrap_url;
            })
            s.realms
        else s.realms
          ++ record {
            realm_id = realm_id;
            signing_public = p.as_bytes signing_public;
            noise_public = noise_public;
            bootstrap_url = bootstrap_url;
            signed_list = none;
            enrolled = 0;
          }
            ∷ [];
  }

  -- `query_row(…).optional()?.flatten()`
  abbrev pub bytes_of : Option RealmRow → Option Bytes
  bytes_of none = none
  bytes_of (some r) = r.signed_list

  abbrev pub is_stored : Bytes → Option Bytes → Bool
  is_stored signed none = false
  is_stored signed (some bytes) = bytes_eq bytes signed

  unfoldable pub known_sequence : Bytes → Option Bytes → Option RealmEndpointList → Option ℕ
  known_sequence signed bytes list =
      if is_stored signed bytes then none else map_option (λ l. l.sequence) list

  -- The list that the profile takes, from the realm that it has.
  unfoldable pub acceptable :
      Bytes → Bytes → RealmTables → StoredRealm → Result Failure RealmEndpointList
  acceptable realm_id signed s r =
      map_err (λ x. error (endpoint_list x))
        (verify p lists signed r.signing_public realm_id
          (known_sequence signed (bytes_of (row_at by_realm realm_id s.realms)) r.endpoint_list))

  abbrev pub relisted : Bytes → RealmEndpointList → RealmRow → RealmRow
  relisted signed list r = record r {
    signed_list = some signed;
    noise_public = list.realm_noise_public_key;
  }

  abbrev pub written :
      Bytes
      → Bytes
      → RealmTables
      → Result Failure RealmEndpointList
      → Result Failure RealmEndpointList × RealmTables
  written realm_id signed s (err x) = (err x, s)
  written realm_id signed s (ok list) = (
    ok list,
    record s { realms = update_where (at by_realm realm_id) (relisted signed list) s.realms },
  )

  unfoldable pub realm_accept_endpoint_list :
      Bytes → Bytes → RealmTables → Result Failure RealmEndpointList × RealmTables
  realm_accept_endpoint_list realm_id signed s =
      written realm_id signed s
        (do found ← realm s; r ← ok_or found (error no_device); acceptable realm_id signed s r)
