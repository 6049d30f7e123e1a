-- ===== src/Mcp/Handlers.antt =====
-- The handlers of MCP's routes (internal/transport/http/handlers.go), the gateway that they use
-- (server.go, Gateways.mcp) and the one without a placement (internal/application/gateways.go,
-- Unavailable).
use Prim.Native.String.{◌++◌ as ◌<>◌}
use anvilkit_agent_api.Base.{String, Option, none, some}
use anvilkit_agent_api.Base.Results.{Result, failed, ok}
use anvilkit_agent_api.Errors.{Failure, ControlError}
use anvilkit_agent_api.Errors.Owner
use anvilkit_agent_api.Control.Handlers.{Context, principal_of, identity, Reply, respond}
use anvilkit_agent_api.Mcp.{
  Descriptor, Grant, RevocationProgress, ToolCall, Page, ListParams, ReviewRequest, DiscoverRequest,
  CreateGrantRequest, RevokeGrantRequest, CreateToolCallRequest, Port,
}

-- A request of one of the routes, with what the handler is given beside its context.
pub data Request : Type 0 where
  list_catalog list_grants : ListParams → Request
  get_grant get_revocation_progress get_tool_call reconcile_tool_call : String → Request
  discover_server : DiscoverRequest → Request
  review_descriptor : String → ReviewRequest → Request
  create_grant : CreateGrantRequest → Request
  revoke_grant : String → RevokeGrantRequest → Request
  create_tool_call : CreateToolCallRequest → Request

pub data Response : Type 0 where
  catalog_page : Reply (Page Descriptor) → Response
  descriptor : Reply Descriptor → Response
  grant_page : Reply (Page Grant) → Response
  grant : Reply Grant → Response
  progress : Reply RevocationProgress → Response
  tool_call : Reply ToolCall → Response

abbrev pub answered : {A : Type 0} → (A → Response) → Result Failure A → Result Failure Response
answered f (failed e) = failed e
answered f (ok a) = ok (f a)

-- The handlers: what a read answers, with the status 200, and what a command answers.
unfoldable pub handle : Port → Context → Request → Result Failure Response
unfolding principal_of identity
handle mcp c (list_catalog params) =
    answered catalog_page (respond 200 (λ a. a) (mcp.list_catalog (principal_of c) params))
handle mcp c (discover_server body) =
    answered descriptor (
      respond 201 (λ a. a) (mcp.discover_server (identity c body.command_id) (principal_of c) body))
handle mcp c (review_descriptor server_id body) = answered descriptor (
    respond 200 (λ a. a)
      (mcp.review_descriptor (identity c body.command_id) (principal_of c) server_id body))
handle mcp c (list_grants params) =
    answered grant_page (respond 200 (λ a. a) (mcp.list_grants (principal_of c) params))
handle mcp c (create_grant body) =
    answered grant
      (respond 201 (λ a. a) (mcp.create_grant (identity c body.command_id) (principal_of c) body))
handle mcp c (get_grant grant_id) =
    answered grant (respond 200 (λ a. a) (mcp.get_grant (principal_of c) grant_id))
handle mcp c (get_revocation_progress grant_id) =
    answered progress (respond 200 (λ a. a) (mcp.get_revocation_progress (principal_of c) grant_id))
handle mcp c (revoke_grant grant_id body) = answered grant (
    respond 202 (λ a. a)
      (mcp.revoke_grant (identity c body.command_id) (principal_of c) grant_id body))
handle mcp c (create_tool_call body) =
    answered tool_call (
      respond 202 (λ a. a)
        (mcp.create_tool_call (identity c body.command_id) (principal_of c) body))
handle mcp c (get_tool_call call_id) =
    answered tool_call (respond 200 (λ a. a) (mcp.get_tool_call (principal_of c) call_id))
handle mcp c (reconcile_tool_call call_id) =
    answered tool_call (respond 200 (λ a. a) (mcp.reconcile_tool_call (principal_of c) call_id))

-- Unavailable: every call's error.
abbrev pub not_placed : String → ControlError
not_placed service =
    Owner.refused "DEPENDENCY_UNAVAILABLE" (service <> " is not placed for this API")

abbrev pub unavailable : String → Port
unavailable service = record {
  list_catalog = λ p params. failed (not_placed service);
  discover_server = λ cmd p req. failed (not_placed service);
  review_descriptor = λ cmd p id req. failed (not_placed service);
  list_grants = λ p params. failed (not_placed service);
  create_grant = λ cmd p req. failed (not_placed service);
  get_grant = λ p id. failed (not_placed service);
  get_revocation_progress = λ p id. failed (not_placed service);
  revoke_grant = λ cmd p id req. failed (not_placed service);
  create_tool_call = λ cmd p req. failed (not_placed service);
  get_tool_call = λ p id. failed (not_placed service);
  reconcile_tool_call = λ p id. failed (not_placed service);
}

-- Gateways.mcp
unfoldable pub gateway : Option Port → Port
gateway none = unavailable "mcp"
gateway (some mcp) = mcp
