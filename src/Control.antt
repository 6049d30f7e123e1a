-- ===== src/Control.antt =====
-- The API's operations on Control: the port and its values (internal/application/principal.go). A
-- time is the nanoseconds since the epoch, in UTC.
pub mod Wire
pub mod Client
pub mod Requests
pub mod Public
pub mod Handlers
pub mod Words
pub mod Scoped
pub mod Capability
mod Examples
use anvilkit_agent_api.Base.{ℕ, String, Bool, Option, none, some, List, if◌then◌else◌}
use anvilkit_agent_api.Base.Text.{is_empty}
use anvilkit_agent_api.Base.Int.{ℤ}
use anvilkit_agent_api.Base.Results.{Result}
use anvilkit_agent_api.Errors.{ControlError}
use anvilkit_agent_api.Access.{Principal}

-- application.CommandIdentity
pub record CommandIdentity : Type 0 where
  pub tenant_id : String
  pub command_id : String
  pub actor_id : String
  pub request_digest : String

pub record OperationSubject : Type 0 where
  pub profile_id : String
  pub subject_digest : String
  pub brief_id : String
  pub source_revision : String
  pub source_handle : String
  pub source_operation_id : String
  pub package_version : String

pub record Question : Type 0 where
  pub question_id : String
  pub text : String

pub record Clarification : Type 0 where
  pub question_set_id : String
  pub question_set_revision : String
  pub round : String
  pub asked_at : ℤ
  pub expires_at : ℤ
  pub questions : List Question

pub record OperationProgress : Type 0 where
  pub step : String
  pub visit : String
  pub attempt_ordinal : String
  pub node : String
  pub node_state : String
  pub round : String
  pub event_seq : String

pub record OperationView : Type 0 where
  pub operation_id : String
  pub tenant_id : String
  pub project_id : String
  pub actor_id : String
  pub kind : String
  pub subject : OperationSubject
  pub lifecycle : String
  pub phase : String
  pub control : String
  pub cleanup : String
  pub finance : String
  pub revision : String
  pub covered_event_seq : String
  pub execution_epoch : String
  pub created_at : ℤ
  pub updated_at : ℤ
  pub deadline : ℤ
  pub failure_code : String
  pub active_deadline : Option ℤ
  pub clarification : Option Clarification
  pub progress : Option OperationProgress

pub record SourceReference : Type 0 where
  pub source_id : String
  pub revision : String

pub record PreparationIntake : Type 0 where
  pub prompt_transfer_id : String
  pub prompt_digest : String
  pub brand_references : List SourceReference
  pub asset_references : List SourceReference

pub record AnswerReceipt : Type 0 where
  pub answer_id : String
  pub operation_id : String
  pub question_set_id : String
  pub question_set_revision : String
  pub update_id : String
  pub accepted_at : ℤ

pub record CommandReceipt : Type 0 where
  pub command_id : String
  pub operation_id : String
  pub kind : String
  pub outcome : String
  pub operation_revision : String
  pub reason_code : String
  pub accepted_at : ℤ
  pub settled_at : Option ℤ

pub record TransferIntent : Type 0 where
  pub class : String
  pub media_type : String
  pub expected_digest : String
  pub expected_size : String
  pub operation_id : String
  pub attempt_id : String
  pub deadline : ℤ

pub record UploadCapability : Type 0 where
  pub url : String
  pub method : String
  pub headers : List (String × String)
  pub expires_at : ℤ

pub record TransferView : Type 0 where
  pub transfer_id : String
  pub handle : String
  pub class : String
  pub expected_digest : String
  pub expected_size : String
  pub state : String
  pub deadline : ℤ
  pub object_version : String
  pub reason_code : String
  pub upload : Option UploadCapability

abbrev pub Answer : Type 0 → Type 0
Answer A = Result ControlError A

-- application.Control, as far as the operations, the preparations and the transfers.
pub record Port : Type 0 where
  pub create_operation :
      CommandIdentity → Principal → String → OperationSubject → Answer OperationView
  pub create_preparation :
      CommandIdentity → Principal → String → String → PreparationIntake → Answer OperationView
  pub submit_answer :
      CommandIdentity
      → Principal
      → String
      → String
      → String
      → String
      → String
      → Answer AnswerReceipt
  pub get_operation : Principal → String → Answer OperationView
  pub submit_command :
      CommandIdentity → Principal → String → String → String → String → Answer CommandReceipt
  pub get_command : Principal → String → String → Answer CommandReceipt
  pub begin_transfer : CommandIdentity → Principal → TransferIntent → Answer TransferView
  pub finalize_transfer : CommandIdentity → Principal → String → String → Answer TransferView

-- The pointer of a text that may be absent: nil for the empty text.
unfoldable pub opt_str : String → Option String
opt_str s = if is_empty s then none else some s

unfoldable pub deref : Option String → String
deref none = ""
deref (some s) = s
