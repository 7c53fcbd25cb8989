-- ===== src/Endpoints.antt =====
-- core/crates/arveil-core/src/channel/endpoints.rs: the signed list of a realm's endpoints.
pub mod Laws
mod Tests
use arveil.Base.{
  ℕ, Bool, true, false, not, String, List, [], ◌∷◌, ◌++◌, Option, none, some, Bytes, ascii,
  bytes_eq, is_empty, leb, ◌==◌, Result, ok, err, map_err, refuse_if, ◌>>=◌, ◌>>◌,
}
use arveil.Cbor.{Serde}
use arveil.Signed
use arveil.Signed.{SignedError, encode, Platform, verify_value}

abbrev pub context : Bytes
context = ascii "arveil/endpoint-list/v1"

abbrev pub version : ℕ
version = 1

-- `decode` keeps the error where the source keeps its text.
pub data EndpointListError : Type 0 where
  decode : SignedError → EndpointListError
  wrong_context : Bytes → EndpointListError
  bad_signature : EndpointListError
  unsupported_version : ℕ → EndpointListError
  realm_mismatch : EndpointListError
  rollback : ℕ → ℕ → EndpointListError
  empty : EndpointListError

pub record Endpoint : Type 0 where
  pub kind : Bytes
  pub url : Bytes
  pub priority : ℕ

pub record RealmEndpointList : Type 0 where
  pub version : ℕ
  pub realm_id : Bytes
  pub sequence : ℕ
  pub realm_noise_public_key : Bytes
  pub endpoints : List Endpoint

abbrev pub list_error : SignedError → EndpointListError
list_error (Signed.wrong_context expected got) = wrong_context got
list_error Signed.bad_signature = bad_signature
list_error (Signed.encode text) = decode (Signed.encode text)
list_error (Signed.decode text) = decode (Signed.decode text)

-- `if let Some(known) = known_sequence && sequence <= known`
abbrev pub is_rollback : ℕ → Option ℕ → Bool
is_rollback sequence none = false
is_rollback sequence (some known) = leb sequence known

abbrev pub known_or_zero : Option ℕ → ℕ
known_or_zero none = 0
known_or_zero (some known) = known

unfoldable pub realm_id : (p : Platform) → p.VerifyingKey → Bytes
realm_id p realm_signing_key = p.sha256 (ascii "arveil/realm-id/v1" ++ p.as_bytes realm_signing_key)

module _ (p : Platform) (lists : Serde p.cbor RealmEndpointList) where
  unfoldable pub verify :
      Bytes → p.VerifyingKey → Bytes → Option ℕ → Result EndpointListError RealmEndpointList
  verify signed realm_signing_key expected_realm_id known_sequence = do
    list ← map_err list_error (verify_value p lists signed context realm_signing_key)
    refuse_if (not (list.version == version)) (unsupported_version list.version)
    refuse_if (not (bytes_eq list.realm_id expected_realm_id)) realm_mismatch
    refuse_if (is_rollback list.sequence known_sequence)
        (rollback list.sequence (known_or_zero known_sequence))
    refuse_if (is_empty list.endpoints) empty
    ok list
