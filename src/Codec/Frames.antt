-- ===== src/Codec/Frames.antt =====
-- The frame objects of core/crates/arveil-core/src/channel/codec.rs.
use arveil.Base.{ℕ, Bool, String, List, Bytes}

pub record InvitationRecord : Type 0 where
  pub sequence : ℕ
  pub id : Bytes
  pub created_at : ℕ
  pub expires_at : ℕ
  pub state : String
  pub claimed_identity : Bytes
  pub claimed_at : ℕ

pub record EnvelopeItem : Type 0 where
  pub seq : ℕ
  pub delivery_id : Bytes
  pub hpke_enc : Bytes
  pub ciphertext : Bytes

pub data Payload : Type 0 where
  invite_policy_get : Payload
  invite_policy : (can_invite : Bool) (server_time ttl : ℕ) → Payload
  invite_create : (request_key token_hash : Bytes) (ttl : ℕ) → Payload
  invite_list : (cursor limit : ℕ) → Payload
  invite_get : (invitation_id : Bytes) → Payload
  invite_revoke : (invitation_id : Bytes) → Payload
  invite_accept : (token : Bytes) → Payload
  invitation : InvitationRecord → Payload
  invitations : List InvitationRecord → ℕ → Payload
  key_packages_claim_once : (request_key identity_id device_id : Bytes) → Payload
  ping : Payload
  pong : Payload
  watch_key_set : (key : Bytes) → Payload
  mailbox_watch : Payload
  mailbox_wakeup : Payload
  endpoint_list_get : Payload
  endpoint_list : (signed : Bytes) → Payload
  invite_redeem : (token credential manifest : Bytes) → Payload
  invite_redeemed : (identity_id : Bytes) → Payload
  credential_put : (credential : Bytes) → Payload
  manifest_put : (manifest : Bytes) → Payload
  notify_hint_set : (url : String) → Payload
  blob_resume : (blob_id : Bytes) → Payload
  blob_offset : (offset : ℕ) → Payload
  pair_begin : Payload
  pair_started : (pair_id capability : Bytes) (expires_at : ℕ) → Payload
  pair_put : (pair_id capability : Bytes) (slot : String) (bytes : Bytes) → Payload
  pair_get : (pair_id capability : Bytes) (slot : String) → Payload
  pair_fetched : (bytes : Bytes) → Payload
  recover_identity : (credential manifest : Bytes) → Payload
  recovered : (identity_id : Bytes) (previous_sequence : ℕ) → Payload
  manifest_get : (identity_id : Bytes) → Payload
  manifest_latest : (manifest : Bytes) → Payload
  credential_get : (identity_id credential_hash : Bytes) → Payload
  credential_found : (credential : Bytes) → Payload
  key_packages_publish : (key_packages : List Bytes) → Payload
  key_packages_status : Payload
  key_packages_available : (count : ℕ) → Payload
  key_packages_claim : (identity_id device_id : Bytes) → Payload
  key_package_claimed : (key_package : Bytes) → Payload
  mailbox_create : (request_key read_capability write_capability : Bytes) → Payload
  mailbox_created : (mailbox_id read_capability write_capability : Bytes) → Payload
  envelope_put :
      (mailbox_id write_capability delivery_id : Bytes) (requested_expiry : ℕ)
      (hpke_enc ciphertext : Bytes)
      → Payload
  envelope_accepted : (effective_expiry : ℕ) → Payload
  envelope_fetch : (mailbox_id read_capability : Bytes) (cursor limit : ℕ) → Payload
  envelopes : (items : List EnvelopeItem) (next_cursor : ℕ) → Payload
  envelope_ack : (mailbox_id read_capability : Bytes) (delivery_ids : List Bytes) → Payload
  blob_upload_begin : (size : ℕ) → Payload
  blob_upload_started : (blob_id read_capability : Bytes) → Payload
  blob_chunk : (blob_id : Bytes) (offset : ℕ) (bytes : Bytes) → Payload
  blob_commit : (blob_id ciphertext_hash : Bytes) (requested_expiry : ℕ) → Payload
  blob_committed : (effective_expiry : ℕ) → Payload
  blob_fetch : (blob_id read_capability : Bytes) (offset length : ℕ) → Payload
  blob_data : (total_size : ℕ) (bytes : Bytes) → Payload
  ack : Payload
  error : (code : ℕ) (message : String) → Payload

pub record Frame : Type 0 where
  pub id : ℕ
  pub payload : Payload
