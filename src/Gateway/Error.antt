-- ===== src/Gateway/Error.antt =====
-- hackline/crates/hackline-gateway/src/error.rs. A message is the reason that it words.
use codeless_workspace.Base.{ℕ, List, []}

pub data DbError : Type 0 where
  unique foreign_key check no_rows : DbError

pub data Reason : Type 0 where
  slug_length slug_start slug_chars slug_taken : Reason
  no_pending_claim invalid_claim_token claim_failed : Reason
  payload_not_serialisable payload_too_large outbox_full unknown_status topic_empty : Reason
  unparsable_keyexpr wrong_kind bad_envelope unknown_device foreign_org cmd_id_mismatch : Reason
  unknown_org bad_zid : Reason
  scope_json scope_shape device_not_authorised unknown_role : Reason
  only_owner not_permitted delete_self : Reason
  header_too_long preamble_closed missing_host no_tunnel_for_host : Reason
  only_owner_creates only_owner_lists : Reason
  request_encode device_error reply_decode agent_error : Reason
  tls_needs_email tls_needs_both tls_no_mode tls_ambiguous : Reason
  device_ack_timeout device_ack ack_decode device_rejected : Reason

pub data GatewayError : Type 0 where
  config : Reason → GatewayError
  bridge zenoh io proto pool : GatewayError
  db : DbError → GatewayError
  not_found : GatewayError
  bad_request unauthorized : Reason → GatewayError

-- The status code of `into_response`.
unfoldable pub status : GatewayError → ℕ
status not_found = 404
status (bad_request r) = 400
status (unauthorized r) = 401
status (config r) = 500
status _ = 500

pub data Result (A : Type 0) : Type 0 where
  ok : A → Result A
  err : GatewayError → Result A

abbrev pub or_empty : {A : Type 0} → Result (List A) → List A
or_empty (ok xs) = xs
or_empty (err e) = []
