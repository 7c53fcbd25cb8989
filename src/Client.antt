-- ===== src/Client.antt =====
-- What the parts of core/crates/arveil-core/src/client.rs share: the errors, and the text of an
-- identity in them.
use arveil.Base.{ℕ, ◌+◌, ◌/◌, ◌%◌, String, [], ◌∷◌, Bytes, ltb, if◌then◌else◌}
use arveil.Sql.{SqlError}
use arveil.Identity.{IdentityError}
use arveil.Endpoints.{EndpointListError}

pub data ClientError : Type 0 where
  sqlite : SqlError → ClientError
  identity : IdentityError → ClientError
  endpoint_list : EndpointListError → ClientError
  identity_exists no_identity no_device : ClientError
  mls : String → ClientError
  key_package_publication : String → ClientError
  no_root grant_mismatch grant_manifest : ClientError
  invalid_completion_phase : ℕ → ClientError
  device_exists : ClientError
  unknown_device : Bytes → ClientError
  revoke_self revoked_device unknown_identity : ClientError
  contact_root_mismatch : Bytes → ClientError
  no_such_contact : Bytes → ClientError
  no_kit_export : ClientError

-- A digit of `{x:02x}` as its ASCII code.
abbrev pub hex_digit : ℕ → ℕ
hex_digit d = if ltb d 10 then 48 + d else 87 + d

unfoldable pub hex_of : Bytes → Bytes
hex_of [] = []
hex_of (x ∷ b) = hex_digit (x / 16 % 16) ∷ hex_digit (x % 16) ∷ hex_of b
