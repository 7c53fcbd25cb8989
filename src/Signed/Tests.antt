-- ===== src/Signed/Tests.antt =====
-- Runs of core/crates/arveil-core/src/signed.rs, and the theorems at concrete inputs.
use arveil.Base.{◌≡◌, ◌≢◌, ◌↔◌, refl, ◌∷◌, [], Bytes, ascii, ok, arith}
use arveil.Cbor.{canonical, sort_maps}
use arveil.Sample.{platform, put_object}
use arveil.Signed.{SignedObject, signing_input, u16_be, sign, verify}
use arveil.Signed.Laws.{IsSignedBy, verify_iff}

abbrev context : Bytes
context = ascii "arveil/test/v1"

abbrev hello : SignedObject
hello = record {
  context = context;
  body = ascii "hello";
  signature = platform.sign_bytes 3 (signing_input context (ascii "hello"));
}

sign-hello : sign platform context (ascii "hello") 3 ≡ ok (put_object hello)
unfolding sign canonical sort_maps
sign-hello = refl

input_hi : signing_input (ascii "ab") (ascii "hi") ≡ 0 ∷ 2 ∷ b'a' ∷ b'b' ∷ b'h' ∷ b'i' ∷ []
unfolding signing_input u16_be
input_hi = refl

contexts_differ : context ≢ ascii "arveil/other/v1"
contexts_differ = ground arith

verify_iff_example :
    (verify platform (put_object hello) context 3 ≡ ok (ascii "hello"))
    ↔ IsSignedBy platform (put_object hello) context 3 (ascii "hello")
verify_iff_example = verify_iff platform (put_object hello) context 3 (ascii "hello")
