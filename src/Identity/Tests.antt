-- ===== src/Identity/Tests.antt =====
-- Runs of core/crates/arveil-core/src/identity/mod.rs, and the theorems at concrete inputs.
use arveil.Base.{ℕ, ◌≡◌, ◌↔◌, refl, ◌∷◌, [], Bytes, some, ok, arith, bytes_eq}
use arveil.Cbor.{canonical, sort_maps}
use arveil.Sample.{
  platform, platform-laws, credentials, manifests, manifests-ReadsBack, put, get, put_list,
  get_list, put_object, put_credential, put_manifest,
}
use arveil.Signed.{sign, sign_value, verify, verify_value, peek, signing_input, u16_be}
use arveil.Identity.{
  DeviceManifest, DevicePublicKeys, ManifestState, Validity, ClaimedDevice, VerifiedCredential,
  issued, credential_context, manifest_context, hash, identity_id, manifest_hash, credential_hash,
  issue_credential, issue_manifest, check_known, accept_manifest, verify_credential,
  verify_claimed_device,
}
use arveil.Identity.Credentials.{IsVerified, verify_credential_iff}
use arveil.Identity.Manifests.{
  accept_manifest_iff, accept_manifest-issue_manifest, Continues, follow, follow-Continues,
  IsAccepted,
}
use arveil.Identity.Devices.{IsVouched, verify_claimed_device-IsVouched}

abbrev device : DevicePublicKeys
device = record {
  device_id = 1 ∷ 2 ∷ [];
  mls_signature_public_key = 3 ∷ [];
  transport_noise_public_key = 4 ∷ [];
  envelope_hpke_public_key = 5 ∷ [];
}

abbrev window : Validity
window = record { not_before = 10; not_after = 20 }

abbrev signed_credential : Bytes
signed_credential =
    let body = put_credential (issued platform 7 device window 0b101) in
    put_object (record {
      context = credential_context;
      body = body;
      signature = platform.sign_bytes 7 (signing_input credential_context body);
    })

issued_ok : issue_credential platform credentials 7 device window 0b101 ≡ ok signed_credential
unfolding issue_credential sign_value sign canonical sort_maps
issued_ok = refl

abbrev verified : VerifiedCredential platform
verified = record {
  credential = issued platform 7 device window 0b101;
  root = 7;
  hash = credential_hash platform signed_credential;
}

verify_credential_iff_example :
    (verify_credential platform credentials signed_credential (some 7) 15 ≡ ok verified)
    ↔ IsVerified platform credentials signed_credential (some 7) 15 verified
verify_credential_iff_example =
    verify_credential_iff platform credentials signed_credential (some 7) 15 verified

-- The manifest of the root 7 with this sequence and previous hash, signed.
abbrev manifest_body : ℕ → Bytes → DeviceManifest
manifest_body sequence previous = record {
  version = 1;
  identity_id = identity_id platform 7;
  manifest_sequence = sequence;
  previous_manifest_hash = previous;
  active_credential_hashes = credential_hash platform signed_credential ∷ [];
  revoked_credential_hashes = [];
}

abbrev signed_manifest : ℕ → Bytes → Bytes
signed_manifest sequence previous =
    let body = put_manifest (manifest_body sequence previous) in
    put_object (record {
      context = manifest_context;
      body = body;
      signature = platform.sign_bytes 7 (signing_input manifest_context body);
    })

abbrev first : ManifestState
first = record { sequence = 1; hash = manifest_hash platform (signed_manifest 1 []) }

abbrev second : Bytes
second = signed_manifest 2 first.hash

second_issued :
    issue_manifest platform manifests 7
      (some first)
      (credential_hash platform signed_credential ∷ [])
      []
    ≡ ok second
unfolding issue_manifest sign_value sign canonical sort_maps
second_issued = refl

accept_manifest_iff_example :
    (accept_manifest platform manifests second 7 (some first)
      ≡ ok (manifest_body 2 first.hash, record { sequence = 2; hash = [] }))
    ↔ IsAccepted platform manifests second 7
        (some first)
        (manifest_body 2 first.hash)
        (record { sequence = 2; hash = [] })
accept_manifest_iff_example =
    accept_manifest_iff platform manifests second 7 (some first) (manifest_body 2 first.hash)
      (record { sequence = 2; hash = [] })

second_accepted :
    accept_manifest platform manifests second 7 (some first)
    ≡ ok (manifest_body 2 first.hash, record { sequence = 2; hash = manifest_hash platform second })
second_accepted =
    accept_manifest-issue_manifest platform platform-laws manifests manifests-ReadsBack 7
      (some first) (credential_hash platform signed_credential ∷ []) [] second (λ k e. ground arith)
      second_issued

second_verified :
    verify_value platform manifests second manifest_context 7 ≡ ok (manifest_body 2 first.hash)
second_verified =
    ((accept_manifest_iff platform manifests second 7 (some first) _ _).0 second_accepted).verified

-- A device that has seen sequence 5 takes the manifest of sequence 2 for a rollback.
abbrev later : ManifestState
later = record { sequence = 5; hash = [] }

follow-Continues_example :
    Continues platform manifests 7 first
      (follow platform manifests 7 (some first) (second ∷ signed_manifest 1 [] ∷ []))
follow-Continues_example =
    follow-Continues platform manifests 7 first (second ∷ signed_manifest 1 [] ∷ [])

abbrev claimed : ClaimedDevice platform
claimed = record {
  root = 7;
  device_id = 1 ∷ 2 ∷ [];
  credential_hash = credential_hash platform signed_credential;
  envelope_hpke_public_key = 5 ∷ [];
}

claimed_ok :
    verify_claimed_device platform credentials manifests claimed signed_credential second 15
    ≡ ok (issued platform 7 device window 0b101)
unfolding verify_claimed_device verify_credential accept_manifest check_known verify_value verify
    peek bytes_eq get get_list put put_list signing_input u16_be hash identity_id manifest_hash
    credential_hash
claimed_ok = refl

verify_claimed_device-IsVouched_example :
    IsVouched platform credentials manifests claimed signed_credential second 15
      (issued platform 7 device window 0b101)
verify_claimed_device-IsVouched_example =
    verify_claimed_device-IsVouched platform credentials manifests claimed signed_credential second
      15 (issued platform 7 device window 0b101) claimed_ok
