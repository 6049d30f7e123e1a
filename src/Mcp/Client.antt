-- ===== src/Mcp/Client.antt =====
-- The readers of MCP's messages (internal/adapters/mcp/client.go).
use Prim.Native.Nat.{◌%◌}
use Prim.Native.String.{String}
use Prim.Native.String
use text.Mathlib.Text.{◌==◌ as str_eq}
use anvilkit_agent_api.Base.{ℕ, not, Option, none, some, List, [], ◌∷◌, map, if◌then◌else◌, ◌^◌}
use anvilkit_agent_api.Base.Text.{is_empty}
use anvilkit_agent_api.Base.Results.{failed, ok}
use anvilkit_agent_api.Errors.Owner.{map_failed, one_of}
use anvilkit_agent_api.Access.{Principal}
use anvilkit_agent_api.Body.{Value}
use anvilkit_agent_api.Control.{CommandIdentity, Answer, opt_str, deref}
use anvilkit_agent_api.Control.Wire.{Scope, Command, Called}
use anvilkit_agent_api.Control.Client.{as_time, enum_word}
use anvilkit_agent_api.Mcp.{
  ToolSchema, Descriptor, Grant, RevocationProgress, ToolCall, Page, ListParams,
}
use anvilkit_agent_api.Mcp.Wire

unfoldable pub scope : Principal → Scope
scope p = record {
  tenant_id = p.tenant_id;
  project_id = p.project_id;
  actor_id = p.actor_id;
  roles = p.roles;
}

unfoldable pub command : CommandIdentity → Command
command cmd = record {
  tenant_id = cmd.tenant_id;
  command_id = cmd.command_id;
  actor_id = cmd.actor_id;
  request_digest = cmd.request_digest;
}

-- `enum`: the enumerator of a contract's word, the zero one for a word that is not listed.
-- `upper` is strings.ToUpper.
unfoldable pub enum : (String → String) → List String → String → String → String
enum upper names prefix w =
    let name = String.◌++◌ prefix (upper w) in
    if one_of name names then name else String.◌++◌ prefix "UNSPECIFIED"

abbrev to_tool : Wire.Tool → ToolSchema
to_tool t = record {
  method = t.method;
  input_schema_digest = t.input_schema_digest;
  output_schema_digest = t.output_schema_digest;
  side_effecting = t.side_effecting;
  unit_price = t.unit_price;
}

unfoldable pub to_descriptor : Wire.Descriptor → Descriptor
unfolding enum_word
to_descriptor d = record {
  server_id = d.server_id;
  revision = d.revision;
  canonical_resource = d.canonical_resource;
  transport = d.transport;
  protocol_version = d.protocol_version;
  descriptor_digest = d.descriptor_digest;
  tools = map to_tool d.tools;
  state = enum_word d.state "CATALOG_STATE_";
  created_at = as_time d.created_at;
  updated_at = as_time d.updated_at;
}

unfoldable pub to_grant : Wire.Grant → Grant
unfolding enum_word
to_grant g = record {
  grant_id = g.grant_id;
  revision = g.revision;
  tenant_id = g.tenant_id;
  subject_type = g.subject_type;
  subject_id = g.subject_id;
  server_id = g.server_id;
  descriptor_revision = g.descriptor_revision;
  descriptor_digest = g.descriptor_digest;
  methods = g.methods;
  purpose = g.purpose;
  cost_cap = g.cost_cap;
  state = enum_word g.state "GRANT_STATE_";
  new_admission_blocked = not (str_eq (enum_word g.state "GRANT_STATE_") "active");
  senders_converged = str_eq (enum_word g.state "GRANT_STATE_") "revoked";
  expires_at = g.expires_at;
  created_at = as_time g.created_at;
  updated_at = as_time g.updated_at;
}

-- The result of a call, where it is not empty and decodes; `decode` is json.Unmarshal into an object.
unfoldable pub result_of : (List ℕ → Option Value) → List ℕ → Option Value
result_of decode [] = none
result_of decode (b ∷ bs) = decode (b ∷ bs)

unfoldable pub to_call : (List ℕ → Option Value) → Wire.Call → ToolCall
unfolding enum_word result_of
to_call decode t = record {
  call_id = t.call_id;
  tenant_id = t.tenant_id;
  grant_id = t.grant_id;
  grant_revision = t.grant_revision;
  server_id = t.server_id;
  method = t.method;
  argument_digest = t.argument_digest;
  state = enum_word t.state "CALL_STATE_";
  failure_code = t.failure_code;
  result_digest = t.result_digest;
  result = result_of decode t.result;
  created_at = as_time t.created_at;
  updated_at = as_time t.updated_at;
}

unfoldable pub zero_if_empty : String → String
zero_if_empty s = if is_empty s then "0" else s

-- The grant of a progress, with the progress's own two flags.
unfoldable pub progress_grant : Wire.Progress → Grant
unfolding to_grant
progress_grant pr = record (to_grant pr.grant) {
  new_admission_blocked = pr.new_admission_blocked;
  senders_converged = pr.senders_converged;
}

unfoldable pub to_progress : Wire.Progress → RevocationProgress
unfolding progress_grant zero_if_empty
to_progress pr = record {
  grant = progress_grant pr;
  new_admission_blocked = pr.new_admission_blocked;
  senders_converged = pr.senders_converged;
  in_flight_calls = zero_if_empty pr.in_flight_calls;
  unknown_calls = zero_if_empty pr.unknown_calls;
  open_calls = zero_if_empty pr.open_calls;
  control_state = if is_empty pr.control_state then "none" else pr.control_state;
}

unfoldable pub to_page : {A B : Type 0} → (A → B) → Wire.Listed A → Page B
unfolding opt_str
to_page read page = record { items = map read page.items; next_cursor = opt_str page.next_cursor }

abbrev limit_or_zero : Option ℕ → ℕ
limit_or_zero none = 0
limit_or_zero (some n) = n % 2 ^ 32

-- The state that a listing asks for, the zero enumerator without one.
abbrev state_filter : (String → String) → List String → String → Option String → String
state_filter upper names prefix none = String.◌++◌ prefix "UNSPECIFIED"
state_filter upper names prefix (some w) = enum upper names prefix w

unfoldable pub list_request :
    (String → String) → List String → String → Principal → ListParams → Wire.ListRequest
unfolding scope deref enum
list_request upper names prefix p params = record {
  scope = scope p;
  state = state_filter upper names prefix params.state;
  cursor = deref params.cursor;
  limit = limit_or_zero params.limit;
}

-- The error of a call goes through MapError, its answer through the reader.
abbrev pub mapped : {A B : Type 0} → (A → B) → Called A → Answer B
mapped read (failed e) = failed (map_failed e "mcp")
mapped read (ok a) = ok (read a)
