-- ===== src/Mcp/Wire.antt =====
-- The messages of MCP's gRPC services, as far as the client fills and reads them, and its stubs:
-- generated code of the contract, so the stubs are parameters. An enumerator is its name.
use anvilkit_agent_api.Base.{ℕ, String, Bool, Option, List}
use anvilkit_agent_api.Base.Int.{ℤ}
use anvilkit_agent_api.Control.Wire.{Scope, Command, Called}
use anvilkit_agent_api.Body.{Value}
use anvilkit_agent_api.Mcp.{Money}

pub record ListRequest : Type 0 where
  pub scope : Scope
  pub state : String
  pub cursor : String
  pub limit : ℕ

pub record OfferedTool : Type 0 where
  pub method : String
  pub side_effecting : Bool
  pub unit_price : Money
  pub idempotent : Bool
  pub query_supported : Bool

pub record DiscoverRequest : Type 0 where
  pub command : Command
  pub scope : Scope
  pub canonical_resource : String
  pub transport : String
  pub protocol_version : String
  pub provenance : Value
  pub data_class : String
  pub tools : List OfferedTool
  pub descriptor_digest : String
  pub network_scope : Option Value
  pub licenses : Option Value

pub record ReviewRequest : Type 0 where
  pub command : Command
  pub scope : Scope
  pub server_id : String
  pub revision : String
  pub descriptor_digest : String
  pub decision : String
  pub reason_code : String

pub record DisableRequest : Type 0 where
  pub command : Command
  pub scope : Scope
  pub server_id : String
  pub revision : String
  pub reason_code : String

pub record CreateGrant : Type 0 where
  pub command : Command
  pub scope : Scope
  pub subject_type : String
  pub subject_id : String
  pub server_id : String
  pub descriptor_revision : String
  pub descriptor_digest : String
  pub methods : List String
  pub purpose : String
  pub cost_cap : Money
  pub expires_at : Option ℤ

pub record GrantQuery : Type 0 where
  pub scope : Scope
  pub grant_id : String

pub record RevokeGrant : Type 0 where
  pub command : Command
  pub scope : Scope
  pub grant_id : String
  pub expected_revision : String
  pub reason_code : String

pub record CreateCall : Type 0 where
  pub command : Command
  pub scope : Scope
  pub grant_id : String
  pub grant_revision : String
  pub method : String
  pub argument_ref : String
  pub argument_digest : String
  pub arguments : List ℕ
  pub operation_id : Option String
  pub attempt_id : Option String
  pub execution_epoch : Option String
  pub deadline : ℤ

pub record CallQuery : Type 0 where
  pub scope : Scope
  pub call_id : String

pub record Tool : Type 0 where
  pub method : String
  pub input_schema_digest : String
  pub output_schema_digest : String
  pub side_effecting : Bool
  pub unit_price : Option Money

pub record Descriptor : Type 0 where
  pub server_id : String
  pub revision : String
  pub canonical_resource : String
  pub transport : String
  pub protocol_version : String
  pub descriptor_digest : String
  pub tools : List Tool
  pub state : String
  pub created_at : Option ℤ
  pub updated_at : Option ℤ

pub record Grant : Type 0 where
  pub grant_id : String
  pub revision : String
  pub tenant_id : String
  pub subject_type : String
  pub subject_id : String
  pub server_id : String
  pub descriptor_revision : String
  pub descriptor_digest : String
  pub methods : List String
  pub purpose : String
  pub cost_cap : Money
  pub state : String
  pub expires_at : Option ℤ
  pub created_at : Option ℤ
  pub updated_at : Option ℤ

pub record Progress : Type 0 where
  pub grant : Grant
  pub new_admission_blocked : Bool
  pub senders_converged : Bool
  pub in_flight_calls : String
  pub unknown_calls : String
  pub open_calls : String
  pub control_state : String

pub record Call : Type 0 where
  pub call_id : String
  pub tenant_id : String
  pub grant_id : String
  pub grant_revision : String
  pub server_id : String
  pub method : String
  pub argument_digest : String
  pub state : String
  pub failure_code : Option String
  pub result_digest : Option String
  pub result : List ℕ
  pub created_at : Option ℤ
  pub updated_at : Option ℤ

pub record Listed (A : Type 0) : Type 0 where
  pub items : List A
  pub next_cursor : String

pub record Stubs : Type 0 where
  pub list_catalog : ListRequest → Called (Listed Descriptor)
  pub discover_server : DiscoverRequest → Called Descriptor
  pub review_descriptor : ReviewRequest → Called Descriptor
  pub disable_descriptor : DisableRequest → Called Descriptor
  pub list_grants : ListRequest → Called (Listed Grant)
  pub create_grant : CreateGrant → Called Grant
  pub get_revocation_progress : GrantQuery → Called Progress
  pub revoke_grant : RevokeGrant → Called Grant
  pub create_call : CreateCall → Called Call
  pub get_call : CallQuery → Called Call
  pub reconcile_call : CallQuery → Called Call
