-- ===== src/Endpoints/Tests.antt =====
-- Runs of core/crates/arveil-core/src/channel/endpoints.rs, and the theorems at concrete inputs.
use arveil.Base.{◌≡◌, ◌↔◌, refl, ◌∷◌, [], Bytes, some, ascii, ok, bytes_eq}
use arveil.Sample.{
  platform, endpoint_lists, put, get, put_list, get_list, put_object, put_endpoints,
}
use arveil.Signed.{signing_input, u16_be, verify_value, verify as verify_object, peek}
use arveil.Endpoints.{RealmEndpointList, context, verify}
use arveil.Endpoints.Laws.{IsAccepted, list_verify_iff}

abbrev realm_list : RealmEndpointList
realm_list = record {
  version = 1;
  realm_id = 1 ∷ 1 ∷ [];
  sequence = 5;
  realm_noise_public_key = 9 ∷ [];
  endpoints = record { kind = ascii "lan"; url = ascii "ws://127.0.0.1"; priority = 0 } ∷ [];
}

abbrev signed : Bytes
signed = put_object (record {
  context = context;
  body = put_endpoints realm_list;
  signature = platform.sign_bytes 7 (signing_input context (put_endpoints realm_list));
})

signed_verified : verify_value platform endpoint_lists signed context 7 ≡ ok realm_list
unfolding verify_value verify_object peek bytes_eq get get_list put put_list signing_input u16_be
signed_verified = refl

list_verify_iff_example :
    (verify platform endpoint_lists signed 7 (1 ∷ 1 ∷ []) (some 4) ≡ ok realm_list)
    ↔ IsAccepted platform endpoint_lists signed 7 (1 ∷ 1 ∷ []) (some 4) realm_list
list_verify_iff_example =
    list_verify_iff platform endpoint_lists signed 7 (1 ∷ 1 ∷ []) (some 4) realm_list
