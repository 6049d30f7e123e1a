-- ===== src/Mcp/Requests.antt =====
-- The calls of MCP's client (internal/adapters/mcp/client.go). Go's own parts are parameters:
-- the contract's tables of enumerators, strings.ToUpper, the encoding and decoding of argument objects, the SHA-256 and the clock.
use anvilkit_agent_api.Base.{
  ℕ, String, Bool, false, map, Option, none, some, List, ltb, length, if◌then◌else◌,
}
use text.Mathlib.Text.{◌==◌ as str_eq}
use anvilkit_agent_api.Base.Int.{ℤ, pos, ◌+ℤ◌}
use anvilkit_agent_api.Base.Results.{failed}
use anvilkit_agent_api.Errors.{ControlError}
use anvilkit_agent_api.Errors.Owner
use anvilkit_agent_api.Access.{Principal}
use anvilkit_agent_api.Body.{Value}
use anvilkit_agent_api.Body.Request.{digest_bytes}
use anvilkit_agent_api.Control.{CommandIdentity, Answer, deref}
use anvilkit_agent_api.Mcp.{
  Descriptor, Grant, RevocationProgress, ToolCall, Page, ListParams, ReviewRequest, DiscoverRequest,
  DiscoveredTool, CreateGrantRequest, RevokeGrantRequest, CreateToolCallRequest, Port,
}
use anvilkit_agent_api.Mcp.Wire
use anvilkit_agent_api.Mcp.Wire.{Stubs}
use anvilkit_agent_api.Mcp.Client.{
  scope, command, enum, to_descriptor, to_grant, to_call, progress_grant, to_progress, to_page,
  list_request, mapped,
}

pub record Env : Type 0 where
  pub catalog_states : List String
  pub grant_states : List String
  pub review_decisions : List String
  pub upper : String → String
  pub marshal : Value → Option (List ℕ)
  pub unmarshal : List ℕ → Option Value
  pub sha256_hex : List ℕ → String
  pub now : ℤ

abbrev pub max_arguments : ℕ
max_arguments = 65536

abbrev pub arguments_refused : ControlError
arguments_refused =
    Owner.refused "INVALID_ARGUMENT" "arguments must be an object of at most 65536 bytes"

module _ (env : Env) (stubs : Stubs) (p : Principal) where
  unfoldable pub list_catalog : ListParams → Answer (Page Descriptor)
  unfolding list_request to_page to_descriptor
  list_catalog params =
      mapped (to_page to_descriptor)
        (stubs.list_catalog (list_request env.upper env.catalog_states "CATALOG_STATE_" p params))

  unfoldable pub list_grants : ListParams → Answer (Page Grant)
  unfolding list_request to_page to_grant
  list_grants params =
      mapped (to_page to_grant)
        (stubs.list_grants (list_request env.upper env.grant_states "GRANT_STATE_" p params))

  unfoldable pub get_grant : String → Answer Grant
  unfolding scope progress_grant
  get_grant grant_id =
      mapped progress_grant
        (stubs.get_revocation_progress (record { scope = scope p; grant_id = grant_id }))

  unfoldable pub get_revocation_progress : String → Answer RevocationProgress
  unfolding scope to_progress
  get_revocation_progress grant_id =
      mapped to_progress
        (stubs.get_revocation_progress (record { scope = scope p; grant_id = grant_id }))

  unfoldable pub get_tool_call : String → Answer ToolCall
  unfolding scope to_call
  get_tool_call call_id =
      mapped (to_call env.unmarshal)
        (stubs.get_call (record { scope = scope p; call_id = call_id }))

  unfoldable pub reconcile_tool_call : String → Answer ToolCall
  unfolding scope to_call
  reconcile_tool_call call_id =
      mapped (to_call env.unmarshal)
        (stubs.reconcile_call (record { scope = scope p; call_id = call_id }))

module _ (env : Env) (stubs : Stubs) (cmd : CommandIdentity) (p : Principal) where
  abbrev flag : Option Bool → Bool
  flag none = false
  flag (some b) = b

  abbrev offered_tool : DiscoveredTool → Wire.OfferedTool
  offered_tool t = record {
    method = t.method;
    side_effecting = t.side_effecting;
    unit_price = t.unit_price;
    idempotent = flag t.idempotent;
    query_supported = flag t.query_supported;
  }

  unfoldable pub discover_server : DiscoverRequest → Answer Descriptor
  unfolding scope command deref to_descriptor
  discover_server req = mapped to_descriptor (
      stubs.discover_server (record {
        command = command cmd;
        scope = scope p;
        canonical_resource = req.canonical_resource;
        transport = req.transport;
        protocol_version = req.protocol_version;
        provenance = req.provenance;
        data_class = req.data_class;
        tools = map offered_tool req.tools;
        descriptor_digest = deref req.descriptor_digest;
        network_scope = req.network_scope;
        licenses = req.licenses;
      }))

  abbrev disable_request : String → ReviewRequest → Wire.DisableRequest
  disable_request server_id req = record {
    command = command cmd;
    scope = scope p;
    server_id = server_id;
    revision = req.revision;
    reason_code = req.reason_code;
  }

  abbrev review_request : String → ReviewRequest → Wire.ReviewRequest
  review_request server_id req = record {
    command = command cmd;
    scope = scope p;
    server_id = server_id;
    revision = req.revision;
    descriptor_digest = req.descriptor_digest;
    decision = enum env.upper env.review_decisions "REVIEW_DECISION_" req.decision;
    reason_code = req.reason_code;
  }

  unfoldable pub review_descriptor : String → ReviewRequest → Answer Descriptor
  unfolding scope command enum to_descriptor
  review_descriptor server_id req =
      if str_eq req.decision "disable"
      then mapped to_descriptor (stubs.disable_descriptor (disable_request server_id req))
      else mapped to_descriptor (stubs.review_descriptor (review_request server_id req))

  unfoldable pub create_grant : CreateGrantRequest → Answer Grant
  unfolding scope command to_grant
  create_grant req = mapped to_grant (
      stubs.create_grant (record {
        command = command cmd;
        scope = scope p;
        subject_type = req.subject_type;
        subject_id = req.subject_id;
        server_id = req.server_id;
        descriptor_revision = req.descriptor_revision;
        descriptor_digest = req.descriptor_digest;
        methods = req.methods;
        purpose = req.purpose;
        cost_cap = req.cost_cap;
        expires_at = req.expires_at;
      }))

  unfoldable pub revoke_grant : String → RevokeGrantRequest → Answer Grant
  unfolding scope command to_grant
  revoke_grant grant_id req = mapped to_grant (
      stubs.revoke_grant (record {
        command = command cmd;
        scope = scope p;
        grant_id = grant_id;
        expected_revision = req.expected_revision;
        reason_code = req.reason_code;
      }))

  abbrev ten_minutes : ℤ
  ten_minutes = pos 600000000000

  -- The call of the encoded arguments.
  unfoldable pub call_request : CreateToolCallRequest → List ℕ → Wire.CreateCall
  unfolding scope command digest_bytes
  call_request req args = record {
    command = command cmd;
    scope = scope p;
    grant_id = req.grant_id;
    grant_revision = req.grant_revision;
    method = req.method;
    argument_ref = "inline";
    argument_digest = digest_bytes env.sha256_hex args;
    arguments = args;
    operation_id = req.operation_id;
    attempt_id = req.attempt_id;
    execution_epoch = req.execution_epoch;
    deadline = env.now +ℤ ten_minutes;
  }

  unfoldable pub create_call : CreateToolCallRequest → Option (List ℕ) → Answer ToolCall
  unfolding call_request to_call
  create_call req none = failed arguments_refused
  create_call req (some args) =
      if ltb max_arguments (length args)
      then failed arguments_refused
      else mapped (to_call env.unmarshal) (stubs.create_call (call_request req args))

  unfoldable pub create_tool_call : CreateToolCallRequest → Answer ToolCall
  unfolding create_call
  create_tool_call req = create_call req (env.marshal req.arguments)

-- The client as the port that the handlers use.
abbrev pub client : Env → Stubs → Port
client env stubs = record {
  list_catalog = λ p. list_catalog env stubs p;
  discover_server = λ cmd p. discover_server env stubs cmd p;
  review_descriptor = λ cmd p. review_descriptor env stubs cmd p;
  list_grants = λ p. list_grants env stubs p;
  create_grant = λ cmd p. create_grant env stubs cmd p;
  get_grant = λ p. get_grant env stubs p;
  get_revocation_progress = λ p. get_revocation_progress env stubs p;
  revoke_grant = λ cmd p. revoke_grant env stubs cmd p;
  create_tool_call = λ cmd p. create_tool_call env stubs cmd p;
  get_tool_call = λ p. get_tool_call env stubs p;
  reconcile_tool_call = λ p. reconcile_tool_call env stubs p;
}
