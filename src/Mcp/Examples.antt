-- ===== src/Mcp/Examples.antt =====
-- The routes of MCP over an owner that answers some calls.
use text.Mathlib.Text.{◌==◌ as str_eq}
use anvilkit_agent_api.Base.{◌≡◌, refl, none, some, [], ◌∷◌, if◌then◌else◌}
use anvilkit_agent_api.Base.Int.{pos}
use anvilkit_agent_api.Base.Results.{failed, ok}
use anvilkit_agent_api.Access.{Principal}
use anvilkit_agent_api.Body.{object, no_members}
use anvilkit_agent_api.Errors.Owner.{no_status, status, internal}
use anvilkit_agent_api.Control.Scoped.{verified}
use anvilkit_agent_api.Mcp.{CreateToolCallRequest}
use anvilkit_agent_api.Mcp.Wire
use anvilkit_agent_api.Mcp.Wire.{Stubs}
use anvilkit_agent_api.Mcp.Requests.{Env, client}
use anvilkit_agent_api.Mcp.Handlers.{handle, create_tool_call}
use anvilkit_agent_api.Mcp.Scoped.{command_id_of, Alike, handle-Alike}

abbrev env : Env
env = record {
  catalog_states = [];
  grant_states = [];
  review_decisions = [];
  upper = λ s. s;
  marshal = λ v. some (b'{' ∷ b'}' ∷ []);
  unmarshal = λ b. none;
  sha256_hex = λ b. "00";
  now = pos 0;
}

abbrev accepted : Wire.CreateCall → Wire.Call
accepted r = record {
  call_id = "call1";
  tenant_id = r.scope.tenant_id;
  grant_id = r.grant_id;
  grant_revision = r.grant_revision;
  server_id = "s1";
  method = r.method;
  argument_digest = r.argument_digest;
  state = "CALL_STATE_ACCEPTED";
  failure_code = none;
  result_digest = none;
  result = [];
  created_at = none;
  updated_at = none;
}

abbrev owner : Stubs
owner = record {
  list_catalog = λ r. failed no_status;
  discover_server = λ r. failed no_status;
  review_descriptor = λ r. failed no_status;
  disable_descriptor = λ r. failed no_status;
  list_grants = λ r. failed no_status;
  create_grant = λ r. failed no_status;
  get_revocation_progress = λ r. failed no_status;
  revoke_grant = λ r. failed no_status;
  create_call = λ r. ok (accepted r);
  get_call = λ r. failed no_status;
  reconcile_call = λ r. failed no_status;
}

-- An owner that answers the calls of another tenant otherwise.
abbrev other_owner : Stubs
other_owner = record owner {
  create_call =
      λ r. if str_eq r.scope.tenant_id "t1" then ok (accepted r) else failed (status internal "");
}

abbrev actor : Principal
actor = record { tenant_id = "t1"; project_id = "p1"; actor_id = "a1"; roles = [] }

abbrev body : CreateToolCallRequest
body = record {
  command_id = "c1";
  grant_id = "g1";
  grant_revision = "1";
  method = "search";
  arguments = object no_members;
  operation_id = none;
  attempt_id = none;
  execution_epoch = none;
}

alike : Alike env actor "sha256:01" (command_id_of (create_tool_call body)) owner other_owner
unfolding command_id_of
alike = record {
  list_catalog = λ r own. refl;
  list_grants = λ r own. refl;
  get_revocation_progress = λ r own. refl;
  get_call = λ r own. refl;
  reconcile_call = λ r own. refl;
  discover_server = λ r own mine. refl;
  review_descriptor = λ r own mine. refl;
  disable_descriptor = λ r own mine. refl;
  create_grant = λ r own mine. refl;
  revoke_grant = λ r own mine. refl;
  create_call = λ r own mine exact. rw own.0 refl;
}

handle-Alike_example :
    handle (client env owner) (verified actor "sha256:01") (create_tool_call body)
    ≡ handle (client env other_owner) (verified actor "sha256:01") (create_tool_call body)
handle-Alike_example =
    handle-Alike env owner other_owner actor "sha256:01" (create_tool_call body) alike
