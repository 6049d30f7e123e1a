-- ===== src/Control/Public.antt =====
-- The views of the public contract (internal/transport/http/handlers.go: viewToPublic,
-- receiptToPublic, transferToPublic). A pointer of the contract's generated types is an Option.
use anvilkit_agent_api.Base.{String, Option, none, some, List, map}
use anvilkit_agent_api.Base.Int.{ℤ}
use anvilkit_agent_api.Control.{
  OperationSubject, OperationProgress, Question, Clarification, OperationView, CommandReceipt,
  UploadCapability, TransferView, opt_str,
}
use anvilkit_agent_api.Control.Client.{present}

pub record Subject : Type 0 where
  pub profile_id : String
  pub subject_digest : String
  pub brief_id : Option String
  pub source_revision : Option String
  pub source_handle : Option String
  pub source_operation_id : Option String
  pub package_version : Option String

pub record Progress : Type 0 where
  pub step : String
  pub visit : String
  pub attempt_ordinal : String
  pub event_seq : String
  pub node : Option String
  pub node_state : Option String
  pub round : Option String

pub record AskedQuestion : Type 0 where
  pub question_id : String
  pub text : String

pub record QuestionSet : Type 0 where
  pub question_set_id : String
  pub question_set_revision : String
  pub round : String
  pub asked_at : ℤ
  pub expires_at : ℤ
  pub questions : List AskedQuestion

pub record Operation : Type 0 where
  pub operation_id : String
  pub tenant_id : String
  pub actor_id : String
  pub kind : String
  pub subject : Subject
  pub lifecycle : String
  pub phase : String
  pub control : String
  pub cleanup : String
  pub finance : String
  pub revision : String
  pub covered_event_seq : String
  pub execution_epoch : String
  pub created_at : ℤ
  pub updated_at : ℤ
  pub deadline : ℤ
  pub failure_code : Option String
  pub project_id : Option String
  pub active_deadline : Option ℤ
  pub progress : Option Progress
  pub clarification : Option QuestionSet

pub record Receipt : Type 0 where
  pub command_id : String
  pub operation_id : String
  pub kind : String
  pub outcome : String
  pub operation_revision : String
  pub reason_code : Option String
  pub accepted_at : ℤ
  pub settled_at : Option ℤ

pub record Transfer : Type 0 where
  pub transfer_id : String
  pub handle : String
  pub class : String
  pub expected_digest : String
  pub expected_size : String
  pub state : String
  pub deadline : ℤ
  pub object_version : Option String
  pub reason_code : Option String
  pub upload_capability : Option String
  pub upload_method : Option String
  pub upload_headers : Option (List (String × String))
  pub upload_expires_at : Option ℤ

unfoldable pub public_subject : OperationSubject → Subject
unfolding opt_str
public_subject s = record {
  profile_id = s.profile_id;
  subject_digest = s.subject_digest;
  brief_id = opt_str s.brief_id;
  source_revision = opt_str s.source_revision;
  source_handle = opt_str s.source_handle;
  source_operation_id = opt_str s.source_operation_id;
  package_version = opt_str s.package_version;
}

unfoldable pub public_progress : OperationProgress → Progress
unfolding opt_str
public_progress p = record {
  step = p.step;
  visit = p.visit;
  attempt_ordinal = p.attempt_ordinal;
  event_seq = p.event_seq;
  node = opt_str p.node;
  node_state = opt_str p.node_state;
  round = opt_str p.round;
}

unfoldable pub public_question : Question → AskedQuestion
public_question q = record { question_id = q.question_id; text = q.text }

unfoldable pub public_questions : Clarification → QuestionSet
unfolding public_question
public_questions c = record {
  question_set_id = c.question_set_id;
  question_set_revision = c.question_set_revision;
  round = c.round;
  asked_at = c.asked_at;
  expires_at = c.expires_at;
  questions = map public_question c.questions;
}

unfoldable pub view_to_public : OperationView → Operation
unfolding opt_str public_subject public_progress public_questions
view_to_public v = record {
  operation_id = v.operation_id;
  tenant_id = v.tenant_id;
  actor_id = v.actor_id;
  kind = v.kind;
  subject = public_subject v.subject;
  lifecycle = v.lifecycle;
  phase = v.phase;
  control = v.control;
  cleanup = v.cleanup;
  finance = v.finance;
  revision = v.revision;
  covered_event_seq = v.covered_event_seq;
  execution_epoch = v.execution_epoch;
  created_at = v.created_at;
  updated_at = v.updated_at;
  deadline = v.deadline;
  failure_code = opt_str v.failure_code;
  project_id = opt_str v.project_id;
  active_deadline = v.active_deadline;
  progress = present public_progress v.progress;
  clarification = present public_questions v.clarification;
}

unfoldable pub receipt_to_public : CommandReceipt → Receipt
unfolding opt_str
receipt_to_public r = record {
  command_id = r.command_id;
  operation_id = r.operation_id;
  kind = r.kind;
  outcome = r.outcome;
  operation_revision = r.operation_revision;
  reason_code = opt_str r.reason_code;
  accepted_at = r.accepted_at;
  settled_at = r.settled_at;
}

-- The capability's members of a transfer, absent without one.
abbrev url_of : Option UploadCapability → Option String
url_of none = none
url_of (some u) = opt_str u.url

unfoldable pub transfer_to_public : TransferView → Transfer
unfolding opt_str
transfer_to_public v = record {
  transfer_id = v.transfer_id;
  handle = v.handle;
  class = v.class;
  expected_digest = v.expected_digest;
  expected_size = v.expected_size;
  state = v.state;
  deadline = v.deadline;
  object_version = opt_str v.object_version;
  reason_code = opt_str v.reason_code;
  upload_capability = url_of v.upload;
  upload_method = present (λ u. u.method) v.upload;
  upload_headers = present (λ u. u.headers) v.upload;
  upload_expires_at = present (λ u. u.expires_at) v.upload;
}
