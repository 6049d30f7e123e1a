-- ===== src/Control/Wire.antt =====
-- The messages of Control's gRPC services, as far as the client fills and reads them, and its
-- stubs: generated code of the contract, so the stubs are parameters. An enumerator is its name; a
-- field that may be absent is an Option, and an absent message has empty members.
use anvilkit_agent_api.Base.{String, Option, List}
use anvilkit_agent_api.Base.Int.{ℤ}
use anvilkit_agent_api.Base.Results.{Result}
use anvilkit_agent_api.Errors.Owner.{OwnerError}

pub record Scope : Type 0 where
  pub tenant_id : String
  pub project_id : String
  pub actor_id : String
  pub roles : List String

pub record Command : Type 0 where
  pub tenant_id : String
  pub command_id : String
  pub actor_id : String
  pub request_digest : String

pub record Subject : Type 0 where
  pub profile_id : String
  pub subject_digest : String
  pub brief_id : Option String
  pub source_revision : Option String
  pub source_handle : Option String
  pub source_operation_id : Option String
  pub package_version : Option String

pub record Reference : Type 0 where
  pub source_id : String
  pub revision : String

pub record Binding : Type 0 where
  pub transfer_id : String
  pub digest : String

pub record Intake : Type 0 where
  pub prompt : Binding
  pub brand_references : List Reference
  pub asset_references : List Reference

pub record CreateOperation : Type 0 where
  pub command : Command
  pub scope : Scope
  pub kind : String
  pub subject : Subject
  pub preparation : Option Intake

pub record GetOperation : Type 0 where
  pub scope : Scope
  pub operation_id : String

pub record SubmitCommand : Type 0 where
  pub command : Command
  pub scope : Scope
  pub operation_id : String
  pub kind : String
  pub expected_revision : String
  pub target_definition_activation : Option String

pub record GetCommand : Type 0 where
  pub scope : Scope
  pub operation_id : String
  pub command_id : String

pub record SubmitAnswer : Type 0 where
  pub command : Command
  pub scope : Scope
  pub operation_id : String
  pub question_set_id : String
  pub question_set_revision : String
  pub answer : Binding

pub record BeginTransfer : Type 0 where
  pub command : Command
  pub scope : Scope
  pub class : String
  pub media_type : String
  pub expected_digest : String
  pub expected_size : String
  pub deadline : ℤ
  pub operation_id : Option String
  pub attempt_id : Option String

pub record FinalizeTransfer : Type 0 where
  pub command : Command
  pub handle : String
  pub object_version : String

pub record AskedQuestion : Type 0 where
  pub question_id : String
  pub text : String

pub record QuestionSet : Type 0 where
  pub question_set_id : String
  pub question_set_revision : String
  pub round : String
  pub asked_at : Option ℤ
  pub expires_at : Option ℤ
  pub questions : List AskedQuestion

pub record Progress : Type 0 where
  pub step : String
  pub visit : String
  pub attempt_ordinal : String
  pub node : String
  pub node_state : String
  pub round : String
  pub event_seq : String

pub record Operation : Type 0 where
  pub operation_id : String
  pub tenant_id : String
  pub project_id : String
  pub actor_id : String
  pub kind : String
  pub subject : Subject
  pub lifecycle : String
  pub phase : String
  pub control : String
  pub cleanup : String
  pub finance : String
  pub revision : String
  pub covered_event_seq : String
  pub execution_epoch : String
  pub created_at : Option ℤ
  pub updated_at : Option ℤ
  pub deadline : Option ℤ
  pub failure_code : String
  pub active_deadline : Option ℤ
  pub progress : Option Progress
  pub clarification : Option QuestionSet

pub record Receipt : Type 0 where
  pub command_id : String
  pub operation_id : String
  pub kind : String
  pub outcome : String
  pub operation_revision : String
  pub reason_code : String
  pub accepted_at : Option ℤ
  pub settled_at : Option ℤ

pub record Answered : Type 0 where
  pub answer_id : String
  pub operation_id : String
  pub question_set_id : String
  pub question_set_revision : String
  pub update_id : String
  pub accepted_at : Option ℤ

pub record Transfer : Type 0 where
  pub transfer_id : String
  pub handle : String
  pub class : String
  pub expected_digest : String
  pub expected_size : String
  pub state : String
  pub deadline : Option ℤ
  pub object_version : String
  pub reason_code : String

pub record Capability : Type 0 where
  pub url : String
  pub method : String
  pub headers : List (String × String)
  pub expires_at : Option ℤ

-- What a call of the service answers.
abbrev pub Called : Type 0 → Type 0
Called A = Result OwnerError A

pub record Stubs : Type 0 where
  pub create_operation : CreateOperation → Called Operation
  pub get_operation : GetOperation → Called Operation
  pub submit_command : SubmitCommand → Called Receipt
  pub get_command : GetCommand → Called Receipt
  pub submit_answer : SubmitAnswer → Called Answered
  pub begin_transfer : BeginTransfer → Called (Transfer × Option Capability)
  pub finalize_transfer : FinalizeTransfer → Called Transfer
