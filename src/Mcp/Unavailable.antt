-- ===== src/Mcp/Unavailable.antt =====
-- The API without a placement of MCP.
use anvilkit_agent_api.Base.{String, ◌≡◌, refl, Option, none, some, [], ◌∷◌, false}
use anvilkit_agent_api.Base.Text.{utf8}
use anvilkit_agent_api.Base.Dict.{lookup}
use anvilkit_agent_api.Base.Results.{Result, failed, ok}
use anvilkit_agent_api.Errors.{Failure, Collected, api, error_envelope, from_control}
use anvilkit_agent_api.Errors
use anvilkit_agent_api.Control.Handlers.{Context}
use anvilkit_agent_api.Mcp.Handlers.{
  Request, handle, gateway, list_catalog, list_grants, get_grant, get_revocation_progress,
  get_tool_call, reconcile_tool_call, discover_server, review_descriptor, create_grant,
  revoke_grant, create_tool_call,
}

-- The error response of a handler that has failed.
unfoldable pub envelope_of : {A : Type 0} → Result Failure A → String → Option Errors.Response
unfolding error_envelope from_control
envelope_of (failed e) request_id = error_envelope false (api (from_control e) ∷ []) request_id
envelope_of (ok r) request_id = none

-- The refusal of a service that is not placed.
abbrev pub refusal : String → String → Errors.Response
refusal message request_id = record {
  status = 503;
  retry_after = none;
  code = "DEPENDENCY_UNAVAILABLE";
  field = none;
  message = utf8 message;
  request_id = request_id;
  retryable = false;
}

pub gateway_unavailable :
    (c : Context) (r : Request) (request_id : String)
    → envelope_of (handle (gateway none) c r) request_id
      ≡ some (refusal "mcp is not placed for this API" request_id)
unfolding envelope_of handle gateway utf8 lookup
gateway_unavailable c (list_catalog params) request_id = refl
gateway_unavailable c (list_grants params) request_id = refl
gateway_unavailable c (get_grant id) request_id = refl
gateway_unavailable c (get_revocation_progress id) request_id = refl
gateway_unavailable c (get_tool_call id) request_id = refl
gateway_unavailable c (reconcile_tool_call id) request_id = refl
gateway_unavailable c (discover_server body) request_id = refl
gateway_unavailable c (review_descriptor id body) request_id = refl
gateway_unavailable c (create_grant body) request_id = refl
gateway_unavailable c (revoke_grant id body) request_id = refl
gateway_unavailable c (create_tool_call body) request_id = refl
