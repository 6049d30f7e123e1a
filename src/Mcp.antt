-- ===== src/Mcp.antt =====
-- The API's gateway to MCP: the port (internal/application/gateways.go) over the public contract's
-- values, which are generated types. A time is the nanoseconds since the epoch; an argument object,
-- and a member that is only passed on, is Go's decoded document.
pub mod Wire
pub mod Client
pub mod Requests
pub mod Handlers
pub mod Scoped
pub mod Unavailable
mod Examples
use anvilkit_agent_api.Base.{ℕ, String, Bool, Option, List}
use anvilkit_agent_api.Base.Int.{ℤ}
use anvilkit_agent_api.Access.{Principal}
use anvilkit_agent_api.Body.{Value}
use anvilkit_agent_api.Control.{CommandIdentity, Answer}

pub record Money : Type 0 where
  pub currency : String
  pub amount : String

pub record ToolSchema : Type 0 where
  pub method : String
  pub input_schema_digest : String
  pub output_schema_digest : String
  pub side_effecting : Bool
  pub unit_price : Option Money

pub record Descriptor : Type 0 where
  pub server_id : String
  pub revision : String
  pub canonical_resource : String
  pub transport : String
  pub protocol_version : String
  pub descriptor_digest : String
  pub tools : List ToolSchema
  pub state : String
  pub created_at : ℤ
  pub updated_at : ℤ

pub record Grant : Type 0 where
  pub grant_id : String
  pub revision : String
  pub tenant_id : String
  pub subject_type : String
  pub subject_id : String
  pub server_id : String
  pub descriptor_revision : String
  pub descriptor_digest : String
  pub methods : List String
  pub purpose : String
  pub cost_cap : Money
  pub state : String
  pub new_admission_blocked : Bool
  pub senders_converged : Bool
  pub expires_at : Option ℤ
  pub created_at : ℤ
  pub updated_at : ℤ

pub record RevocationProgress : Type 0 where
  pub grant : Grant
  pub new_admission_blocked : Bool
  pub senders_converged : Bool
  pub in_flight_calls : String
  pub unknown_calls : String
  pub open_calls : String
  pub control_state : String

pub record ToolCall : Type 0 where
  pub call_id : String
  pub tenant_id : String
  pub grant_id : String
  pub grant_revision : String
  pub server_id : String
  pub method : String
  pub argument_digest : String
  pub state : String
  pub failure_code : Option String
  pub result_digest : Option String
  pub result : Option Value
  pub created_at : ℤ
  pub updated_at : ℤ

pub record Page (A : Type 0) : Type 0 where
  pub items : List A
  pub next_cursor : Option String

-- The query of a listing.
pub record ListParams : Type 0 where
  pub state : Option String
  pub cursor : Option String
  pub limit : Option ℕ

pub record DiscoveredTool : Type 0 where
  pub method : String
  pub side_effecting : Bool
  pub unit_price : Money
  pub idempotent : Option Bool
  pub query_supported : Option Bool

pub record DiscoverRequest : Type 0 where
  pub command_id : String
  pub canonical_resource : String
  pub transport : String
  pub protocol_version : String
  pub provenance : Value
  pub data_class : String
  pub tools : List DiscoveredTool
  pub descriptor_digest : Option String
  pub network_scope : Option Value
  pub licenses : Option Value

pub record ReviewRequest : Type 0 where
  pub command_id : String
  pub decision : String
  pub revision : String
  pub descriptor_digest : String
  pub reason_code : String

pub record CreateGrantRequest : Type 0 where
  pub command_id : String
  pub subject_type : String
  pub subject_id : String
  pub server_id : String
  pub descriptor_revision : String
  pub descriptor_digest : String
  pub methods : List String
  pub purpose : String
  pub cost_cap : Money
  pub expires_at : Option ℤ

pub record RevokeGrantRequest : Type 0 where
  pub command_id : String
  pub expected_revision : String
  pub reason_code : String

pub record CreateToolCallRequest : Type 0 where
  pub command_id : String
  pub grant_id : String
  pub grant_revision : String
  pub method : String
  pub arguments : Value
  pub operation_id : Option String
  pub attempt_id : Option String
  pub execution_epoch : Option String

-- application.MCP
pub record Port : Type 0 where
  pub list_catalog : Principal → ListParams → Answer (Page Descriptor)
  pub discover_server : CommandIdentity → Principal → DiscoverRequest → Answer Descriptor
  pub review_descriptor : CommandIdentity → Principal → String → ReviewRequest → Answer Descriptor
  pub list_grants : Principal → ListParams → Answer (Page Grant)
  pub create_grant : CommandIdentity → Principal → CreateGrantRequest → Answer Grant
  pub get_grant : Principal → String → Answer Grant
  pub get_revocation_progress : Principal → String → Answer RevocationProgress
  pub revoke_grant : CommandIdentity → Principal → String → RevokeGrantRequest → Answer Grant
  pub create_tool_call : CommandIdentity → Principal → CreateToolCallRequest → Answer ToolCall
  pub get_tool_call : Principal → String → Answer ToolCall
  pub reconcile_tool_call : Principal → String → Answer ToolCall
