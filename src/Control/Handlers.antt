-- ===== src/Control/Handlers.antt =====
-- The handlers of the operations, the preparations and the transfers
-- (internal/transport/http/handlers.go): each calls the port with the caller's identity and renders
-- the answer. A `Reply` is the response's status with its body. The bodies of the requests are
-- the contract's generated types: their members are arguments.
use anvilkit_agent_api.Base.{String, ℕ, Option, none, some, List, []}
use anvilkit_agent_api.Base.Int.{ℤ, ◌+ℤ◌}
use anvilkit_agent_api.Base.Results.{Result, failed, ok}
use anvilkit_agent_api.Errors.{Failure}
use anvilkit_agent_api.Errors
use anvilkit_agent_api.Access.{Principal}
use anvilkit_agent_api.Control.{
  CommandIdentity, OperationSubject, SourceReference, PreparationIntake, Answer, Port, deref,
  AnswerReceipt,
}
use anvilkit_agent_api.Control.Public
use anvilkit_agent_api.Control.Public.{view_to_public, receipt_to_public, transfer_to_public}

-- What the middlewares have set on the Gin context.
pub record Context : Type 0 where
  pub principal : Option Principal
  pub digest : Option String

abbrev nobody : Principal
nobody = record { tenant_id = ""; project_id = ""; actor_id = ""; roles = [] }

abbrev or_nobody : Option Principal → Principal
or_nobody none = nobody
or_nobody (some p) = p

unfoldable pub principal_of : Context → Principal
principal_of c = or_nobody c.principal

unfoldable pub identity : Context → String → CommandIdentity
unfolding principal_of deref
identity c command_id = record {
  tenant_id = (principal_of c).tenant_id;
  command_id = command_id;
  actor_id = (principal_of c).actor_id;
  request_digest = deref c.digest;
}

pub record Reply (A : Type 0) : Type 0 where
  pub status : ℕ
  pub body : A

-- The port's error is the handler's; its answer is rendered with the status.
abbrev pub respond : {A B : Type 0} → ℕ → (A → B) → Answer A → Result Failure (Reply B)
respond status render (failed e) = failed (Errors.control e)
respond status render (ok a) = ok (record { status = status; body = render a })

pub record CreateOperationBody : Type 0 where
  pub command_id : String
  pub kind : String
  pub subject : Public.Subject

pub record SubmitCommandBody : Type 0 where
  pub command_id : String
  pub kind : String
  pub expected_revision : String
  pub target_definition_activation : Option String

pub record PreparationBody : Type 0 where
  pub command_id : String
  pub prompt_transfer_id : String
  pub prompt_digest : String
  pub brand_references : Option (List SourceReference)
  pub asset_references : Option (List SourceReference)

pub record AnswerBody : Type 0 where
  pub command_id : String
  pub question_set_id : String
  pub question_set_revision : String
  pub transfer_id : String
  pub digest : String

pub record BeginTransferBody : Type 0 where
  pub command_id : String
  pub class : String
  pub media_type : String
  pub expected_digest : String
  pub expected_size : String
  pub operation_id : Option String
  pub attempt_id : Option String

unfoldable pub subject_of : Public.Subject → OperationSubject
unfolding deref
subject_of s = record {
  profile_id = s.profile_id;
  subject_digest = s.subject_digest;
  brief_id = deref s.brief_id;
  source_revision = deref s.source_revision;
  source_handle = deref s.source_handle;
  source_operation_id = deref s.source_operation_id;
  package_version = deref s.package_version;
}

abbrev references : Option (List SourceReference) → List SourceReference
references none = []
references (some rs) = rs

module _ (control : Port) (c : Context) where
  unfoldable pub handle_create_operation :
      CreateOperationBody → Result Failure (Reply Public.Operation)
  unfolding identity principal_of subject_of view_to_public
  handle_create_operation body = respond 202 view_to_public (
      control.create_operation (identity c body.command_id) (principal_of c) body.kind
        (subject_of body.subject))

  unfoldable pub handle_get_operation : String → Result Failure (Reply Public.Operation)
  unfolding principal_of view_to_public
  handle_get_operation operation_id =
      respond 200 view_to_public (control.get_operation (principal_of c) operation_id)

  unfoldable pub handle_submit_command :
      String → SubmitCommandBody → Result Failure (Reply Public.Receipt)
  unfolding identity principal_of deref receipt_to_public
  handle_submit_command operation_id body = respond 202 receipt_to_public (
      control.submit_command (identity c body.command_id) (principal_of c) operation_id body.kind
        body.expected_revision (deref body.target_definition_activation))

  unfoldable pub handle_get_command : String → String → Result Failure (Reply Public.Receipt)
  unfolding principal_of receipt_to_public
  handle_get_command operation_id command_id =
      respond 200 receipt_to_public (control.get_command (principal_of c) operation_id command_id)

  abbrev intake_of : PreparationBody → PreparationIntake
  intake_of body = record {
    prompt_transfer_id = body.prompt_transfer_id;
    prompt_digest = body.prompt_digest;
    brand_references = references body.brand_references;
    asset_references = references body.asset_references;
  }

  -- `subject` is the canonical digest of the intake, which may fail.
  unfoldable pub handle_create_preparation :
      String → Option String → PreparationBody → Result Failure (Reply Public.Operation)
  unfolding identity principal_of view_to_public
  handle_create_preparation profile none body = failed Errors.other
  handle_create_preparation profile (some subject) body = respond 202 view_to_public (
      control.create_preparation (identity c body.command_id) (principal_of c) profile subject
        (intake_of body))

  unfoldable pub handle_submit_answer : String → AnswerBody → Result Failure (Reply AnswerReceipt)
  unfolding identity principal_of
  handle_submit_answer operation_id body =
      respond 202 (λ r. r)
        (control.submit_answer (identity c body.command_id) (principal_of c) operation_id
          body.question_set_id body.question_set_revision body.transfer_id body.digest)

  -- `now` and the reviewed window are in nanoseconds.
  unfoldable pub handle_begin_transfer :
      ℤ → ℤ → BeginTransferBody → Result Failure (Reply Public.Transfer)
  unfolding identity principal_of deref transfer_to_public
  handle_begin_transfer now window body = respond 201 transfer_to_public (
      control.begin_transfer (identity c body.command_id) (principal_of c) (record {
        class = body.class;
        media_type = body.media_type;
        expected_digest = body.expected_digest;
        expected_size = body.expected_size;
        operation_id = deref body.operation_id;
        attempt_id = deref body.attempt_id;
        deadline = now +ℤ window;
      }))

  unfoldable pub handle_finalize_transfer :
      String → String → String → Result Failure (Reply Public.Transfer)
  unfolding identity principal_of transfer_to_public
  handle_finalize_transfer command_id handle object_version =
      respond 200 transfer_to_public
        (control.finalize_transfer (identity c command_id) (principal_of c) handle object_version)
