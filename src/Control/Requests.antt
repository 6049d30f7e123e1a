-- ===== src/Control/Requests.antt =====
-- The calls of the client (internal/adapters/control/client.go): each builds one request, with the
-- scope of the principal and the identity of the command, and reads one answer.
use anvilkit_agent_api.Base.{String, none, some, map}
use anvilkit_agent_api.Base.Dict.{lookup}
use anvilkit_agent_api.Access.{Principal}
use anvilkit_agent_api.Control.{
  CommandIdentity, OperationSubject, OperationView, PreparationIntake, AnswerReceipt,
  CommandReceipt, TransferIntent, TransferView, Answer, Port, opt_str,
}
use anvilkit_agent_api.Control.Wire
use anvilkit_agent_api.Control.Wire.{Stubs}
use anvilkit_agent_api.Control.Client.{
  scope, command, kinds, command_kinds, artifact_classes, enumerator, to_view, to_receipt,
  to_transfer, to_answer, to_reference, mapped,
}

-- The subject of an operation: an empty member is absent.
unfoldable pub subject_request : OperationSubject → Wire.Subject
unfolding opt_str
subject_request s = record {
  profile_id = s.profile_id;
  subject_digest = s.subject_digest;
  brief_id = opt_str s.brief_id;
  source_revision = opt_str s.source_revision;
  source_handle = opt_str s.source_handle;
  source_operation_id = opt_str s.source_operation_id;
  package_version = opt_str s.package_version;
}

abbrev bare_subject : String → String → Wire.Subject
bare_subject profile_id subject_digest = record {
  profile_id = profile_id;
  subject_digest = subject_digest;
  brief_id = none;
  source_revision = none;
  source_handle = none;
  source_operation_id = none;
  package_version = none;
}

abbrev intake_request : PreparationIntake → Wire.Intake
intake_request i = record {
  prompt = record { transfer_id = i.prompt_transfer_id; digest = i.prompt_digest };
  brand_references = map to_reference i.brand_references;
  asset_references = map to_reference i.asset_references;
}

module _ (stubs : Stubs) (cmd : CommandIdentity) (p : Principal) where
  unfoldable pub create_operation : String → OperationSubject → Answer OperationView
  unfolding scope command enumerator subject_request to_view
  create_operation kind s = mapped to_view (
      stubs.create_operation (record {
        command = command cmd;
        scope = scope p;
        kind = enumerator "OPERATION_KIND_UNSPECIFIED" (lookup kind kinds);
        subject = subject_request s;
        preparation = none;
      }))

  unfoldable pub create_preparation : String → String → PreparationIntake → Answer OperationView
  unfolding scope command to_view
  create_preparation profile_id subject_digest intake = mapped to_view (
      stubs.create_operation (record {
        command = command cmd;
        scope = scope p;
        kind = "OPERATION_KIND_PREPARATION";
        subject = bare_subject profile_id subject_digest;
        preparation = some (intake_request intake);
      }))

  unfoldable pub submit_answer : String → String → String → String → String → Answer AnswerReceipt
  unfolding scope command
  submit_answer operation_id question_set_id question_set_revision transfer_id digest =
      mapped to_answer (
        stubs.submit_answer (record {
          command = command cmd;
          scope = scope p;
          operation_id = operation_id;
          question_set_id = question_set_id;
          question_set_revision = question_set_revision;
          answer = record { transfer_id = transfer_id; digest = digest };
        }))

  unfoldable pub submit_command : String → String → String → String → Answer CommandReceipt
  unfolding scope command enumerator opt_str to_receipt
  submit_command operation_id kind expected_revision target_activation = mapped to_receipt (
      stubs.submit_command (record {
        command = command cmd;
        scope = scope p;
        operation_id = operation_id;
        kind = enumerator "COMMAND_KIND_UNSPECIFIED" (lookup kind command_kinds);
        expected_revision = expected_revision;
        target_definition_activation = opt_str target_activation;
      }))

  unfoldable pub begin_transfer : TransferIntent → Answer TransferView
  unfolding scope command enumerator opt_str to_transfer
  begin_transfer intent =
      mapped (λ r. to_transfer r.0 r.1)
        (stubs.begin_transfer (record {
          command = command cmd;
          scope = scope p;
          class = enumerator "ARTIFACT_CLASS_UNSPECIFIED" (lookup intent.class artifact_classes);
          media_type = intent.media_type;
          expected_digest = intent.expected_digest;
          expected_size = intent.expected_size;
          deadline = intent.deadline;
          operation_id = opt_str intent.operation_id;
          attempt_id = opt_str intent.attempt_id;
        }))

  unfoldable pub finalize_transfer : String → String → Answer TransferView
  unfolding command to_transfer
  finalize_transfer handle object_version =
      mapped (λ t. to_transfer t none)
        (stubs.finalize_transfer
          (record { command = command cmd; handle = handle; object_version = object_version }))

module _ (stubs : Stubs) (p : Principal) where
  unfoldable pub get_operation : String → Answer OperationView
  unfolding scope to_view
  get_operation operation_id =
      mapped to_view (stubs.get_operation (record { scope = scope p; operation_id = operation_id }))

  unfoldable pub get_command : String → String → Answer CommandReceipt
  unfolding scope to_receipt
  get_command operation_id command_id = mapped to_receipt (
      stubs.get_command
        (record { scope = scope p; operation_id = operation_id; command_id = command_id }))

-- The client as the port that the handlers use.
abbrev pub client : Stubs → Port
client stubs = record {
  create_operation = λ cmd p. create_operation stubs cmd p;
  create_preparation = λ cmd p. create_preparation stubs cmd p;
  submit_answer = λ cmd p. submit_answer stubs cmd p;
  get_operation = λ p. get_operation stubs p;
  submit_command = λ cmd p. submit_command stubs cmd p;
  get_command = λ p. get_command stubs p;
  begin_transfer = λ cmd p. begin_transfer stubs cmd p;
  finalize_transfer = λ cmd p. finalize_transfer stubs cmd p;
}
