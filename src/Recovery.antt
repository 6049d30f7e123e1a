-- ===== src/Recovery.antt =====
-- The operator's recovery routes (internal/adapters/control/recovery.go and the handlers of API-17):
-- the messages of Control's RecoveryService are generated code, so its stubs are parameters, and an
-- enumerator is its name. A time or a duration is in nanoseconds.
pub mod Client
pub mod Handlers
pub mod Scoped
mod Examples
use anvilkit_agent_api.Base.{ℕ, String, Bool, Option, List}
use anvilkit_agent_api.Base.Int.{ℤ}
use anvilkit_agent_api.Control.Wire.{Scope, Command, Called}

pub record ClassProgress : Type 0 where
  pub class : String
  pub complete : Bool
  pub seen : String

-- A run, on the wire.
pub record Run : Type 0 where
  pub run_id : String
  pub scope_key : String
  pub recovery_epoch : String
  pub phase : String
  pub window_start : Option ℤ
  pub window_end : Option ℤ
  pub clock_uncertainty : ℤ
  pub fenced_operations : String
  pub unsettled_findings : String
  pub progress : List ClassProgress
  pub created_at : Option ℤ
  pub reopened_at : Option ℤ

-- A run, in public.
pub record RecoveryRun : Type 0 where
  pub run_id : String
  pub scope_key : String
  pub recovery_epoch : String
  pub phase : String
  pub window_start : ℤ
  pub window_end : ℤ
  pub clock_uncertainty_seconds : ℤ
  pub fenced_operations : String
  pub unsettled_findings : String
  pub progress : List ClassProgress
  pub created_at : ℤ
  pub reopened_at : Option ℤ

-- A finding, on the wire.
pub record Found : Type 0 where
  pub finding_id : String
  pub run_id : String
  pub class : String
  pub obligation_id : String
  pub tenant_id : String
  pub inventory_version : String
  pub recorded_at : Option ℤ
  pub status : String
  pub outcome : String
  pub evidence_ref : String
  pub detail : String
  pub launch_key : String

-- A finding, in public.
pub record Finding : Type 0 where
  pub finding_id : String
  pub run_id : String
  pub class : String
  pub obligation_id : String
  pub tenant_id : String
  pub inventory_version : String
  pub recorded_at : ℤ
  pub status : String
  pub outcome : Option String
  pub evidence_ref : Option String
  pub detail : Option String
  pub launch_key : Option String

pub record FoundPage : Type 0 where
  pub findings : List Found
  pub complete : Bool
  pub next_cursor : String

pub record FindingPage : Type 0 where
  pub findings : List Finding
  pub complete : Bool
  pub next_cursor : Option String

-- A disposition, on the wire.
pub record Disposed : Type 0 where
  pub disposition_id : String
  pub run_id : String
  pub class : String
  pub obligation_id : String
  pub decision : String
  pub evidence_ref : String
  pub evidence_digest : String
  pub recovery_epoch : String
  pub decided_at : Option ℤ

-- A disposition, in public.
pub record Disposition : Type 0 where
  pub disposition_id : String
  pub run_id : String
  pub class : String
  pub obligation_id : String
  pub decision : String
  pub evidence_ref : String
  pub evidence_digest : String
  pub recovery_epoch : String
  pub decided_at : ℤ

-- The bodies and the query of the routes.
pub record BeginBody : Type 0 where
  pub command_id : String
  pub all_tenants : Option Bool
  pub window_start : ℤ
  pub window_end : ℤ
  pub clock_uncertainty_seconds : Option ℕ
  pub reason : Option String

pub record FindingParams : Type 0 where
  pub status : Option String
  pub cursor : Option String
  pub limit : Option ℤ

pub record DisposeBody : Type 0 where
  pub command_id : String
  pub class : String
  pub obligation_id : String
  pub decision : String
  pub evidence_ref : String
  pub evidence_digest : String
  pub recovery_epoch : String
  pub reason : Option String

-- The requests of the service.
pub record BeginRequest : Type 0 where
  pub command : Command
  pub scope : Scope
  pub scope_key : String
  pub window_start : ℤ
  pub window_end : ℤ
  pub clock_uncertainty : Option ℤ
  pub reason : String

pub record RunQuery : Type 0 where
  pub run_id : String
  pub scope : Scope

pub record FindingQuery : Type 0 where
  pub run_id : String
  pub scope : Scope
  pub status : String
  pub cursor : String
  pub limit : ℤ

pub record DisposeRequest : Type 0 where
  pub command : Command
  pub scope : Scope
  pub class : String
  pub obligation_id : String
  pub decision : String
  pub evidence_ref : String
  pub evidence_digest : String
  pub recovery_epoch : String
  pub run_id : String
  pub reason : String

-- The stubs; a command's answer says whether Control had applied it already.
pub record Stubs : Type 0 where
  pub begin_recovery : BeginRequest → Called (Run × Bool)
  pub get_recovery : RunQuery → Called Run
  pub list_findings : FindingQuery → Called FoundPage
  pub dispose_obligation : DisposeRequest → Called (Disposed × Bool)
