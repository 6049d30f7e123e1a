-- ===== src/Control/Client.antt =====
-- The gRPC client of Control (internal/adapters/control/client.go): the requests it builds from the
-- port's arguments, and the views it reads from Control's messages.
use Prim.Native.Char.{Char, code}
use Prim.Native.String.{String}
use anvilkit_agent_api.Base.{ℕ, Option, none, some, List, [], ◌∷◌, map, ◌==◌, if◌then◌else◌}
use anvilkit_agent_api.Base.Text.{is_empty}
use anvilkit_agent_api.Base.Int.{ℤ, pos}
use anvilkit_agent_api.Base.Results.{failed, ok}
use anvilkit_agent_api.Errors.Owner.{map_failed}
use anvilkit_agent_api.Access.{Principal, after}
use anvilkit_agent_api.Control.{
  CommandIdentity, OperationSubject, Question, Clarification, OperationProgress, OperationView,
  SourceReference, AnswerReceipt, CommandReceipt, UploadCapability, TransferView, Answer, deref,
}
use anvilkit_agent_api.Control.Wire
use anvilkit_agent_api.Control.Wire.{Stubs, Called}

unfoldable pub scope : Principal → Wire.Scope
scope p = record {
  tenant_id = p.tenant_id;
  project_id = p.project_id;
  actor_id = p.actor_id;
  roles = p.roles;
}

unfoldable pub command : CommandIdentity → Wire.Command
command cmd = record {
  tenant_id = cmd.tenant_id;
  command_id = cmd.command_id;
  actor_id = cmd.actor_id;
  request_digest = cmd.request_digest;
}

abbrev pub kinds : List (String × String)
kinds =
    ("preparation", "OPERATION_KIND_PREPARATION")
    ∷ ("generation", "OPERATION_KIND_GENERATION")
    ∷ ("refinement", "OPERATION_KIND_REFINEMENT")
    ∷ ("preview_build", "OPERATION_KIND_PREVIEW_BUILD")
    ∷ ("release", "OPERATION_KIND_RELEASE")
    ∷ ("local_check", "OPERATION_KIND_LOCAL_CHECK")
    ∷ []

abbrev pub command_kinds : List (String × String)
command_kinds =
    ("cancel", "COMMAND_KIND_CANCEL")
    ∷ ("hold", "COMMAND_KIND_HOLD")
    ∷ ("resume", "COMMAND_KIND_RESUME")
    ∷ ("change_definition", "COMMAND_KIND_CHANGE_DEFINITION")
    ∷ []

abbrev pub artifact_classes : List (String × String)
artifact_classes =
    ("prompt", "ARTIFACT_CLASS_PROMPT")
    ∷ ("brief", "ARTIFACT_CLASS_BRIEF")
    ∷ ("source", "ARTIFACT_CLASS_SOURCE")
    ∷ ("stage", "ARTIFACT_CLASS_STAGE")
    ∷ ("result", "ARTIFACT_CLASS_RESULT")
    ∷ ("evidence", "ARTIFACT_CLASS_EVIDENCE")
    ∷ ("answer", "ARTIFACT_CLASS_ANSWER")
    ∷ ("argument", "ARTIFACT_CLASS_ARGUMENT")
    ∷ ("npm", "ARTIFACT_CLASS_NPM")
    ∷ ("browser", "ARTIFACT_CLASS_BROWSER")
    ∷ ("css", "ARTIFACT_CLASS_CSS")
    ∷ []

-- The element of a map of enumerators: of a missing key the zero enumerator.
unfoldable pub enumerator : String → Option String → String
enumerator unspecified none = unspecified
enumerator unspecified (some name) = name

-- `strings.ToLower` on ASCII letters, which an enumerator's name consists of.
abbrev letters : List (ℕ × Char)
letters =
    (b'A', "a")
    ∷ (b'B', "b")
    ∷ (b'C', "c")
    ∷ (b'D', "d")
    ∷ (b'E', "e")
    ∷ (b'F', "f")
    ∷ (b'G', "g")
    ∷ (b'H', "h")
    ∷ (b'I', "i")
    ∷ (b'J', "j")
    ∷ (b'K', "k")
    ∷ (b'L', "l")
    ∷ (b'M', "m")
    ∷ (b'N', "n")
    ∷ (b'O', "o")
    ∷ (b'P', "p")
    ∷ (b'Q', "q")
    ∷ (b'R', "r")
    ∷ (b'S', "s")
    ∷ (b'T', "t")
    ∷ (b'U', "u")
    ∷ (b'V', "v")
    ∷ (b'W', "w")
    ∷ (b'X', "x")
    ∷ (b'Y', "y")
    ∷ (b'Z', "z")
    ∷ []

lower_of : Char → List (ℕ × Char) → Char
lower_of c [] = c
lower_of c ((upper, lower) ∷ rest) = if code c == upper then lower else lower_of c rest

unfoldable pub to_lower : String → String
unfolding lower_of
to_lower String.[] = ""
to_lower (String.◌∷◌ c s) = String.◌∷◌ (lower_of c letters) (to_lower s)

-- `strings.TrimPrefix(name, prefix)`
abbrev trim_prefix : String → Option String → String
trim_prefix name none = name
trim_prefix name (some rest) = rest

unfoldable pub enum_word : String → String → String
unfolding to_lower after
enum_word name prefix = to_lower (trim_prefix name (after prefix name))

-- AsTime of a timestamp that may be absent.
abbrev pub as_time : Option ℤ → ℤ
as_time none = pos 0
as_time (some t) = t

unfoldable pub to_subject : Wire.Subject → OperationSubject
unfolding deref
to_subject s = record {
  profile_id = s.profile_id;
  subject_digest = s.subject_digest;
  brief_id = deref s.brief_id;
  source_revision = deref s.source_revision;
  source_handle = deref s.source_handle;
  source_operation_id = deref s.source_operation_id;
  package_version = deref s.package_version;
}

abbrev to_progress : Wire.Progress → OperationProgress
to_progress p = record {
  step = p.step;
  visit = p.visit;
  attempt_ordinal = p.attempt_ordinal;
  node = p.node;
  node_state = p.node_state;
  round = p.round;
  event_seq = p.event_seq;
}

abbrev to_question : Wire.AskedQuestion → Question
to_question q = record { question_id = q.question_id; text = q.text }

abbrev to_clarification : Wire.QuestionSet → Clarification
to_clarification c = record {
  question_set_id = c.question_set_id;
  question_set_revision = c.question_set_revision;
  round = c.round;
  asked_at = as_time c.asked_at;
  expires_at = as_time c.expires_at;
  questions = map to_question c.questions;
}

abbrev pub present : {A B : Type 0} → (A → B) → Option A → Option B
present f none = none
present f (some a) = some (f a)

unfoldable pub to_view : Wire.Operation → OperationView
unfolding to_subject enum_word
to_view v = record {
  operation_id = v.operation_id;
  tenant_id = v.tenant_id;
  project_id = v.project_id;
  actor_id = v.actor_id;
  kind = enum_word v.kind "OPERATION_KIND_";
  subject = to_subject v.subject;
  lifecycle = enum_word v.lifecycle "LIFECYCLE_";
  phase = v.phase;
  control = enum_word v.control "CONTROL_STATE_";
  cleanup = enum_word v.cleanup "CLEANUP_STATE_";
  finance = enum_word v.finance "FINANCE_STATE_";
  revision = v.revision;
  covered_event_seq = v.covered_event_seq;
  execution_epoch = v.execution_epoch;
  created_at = as_time v.created_at;
  updated_at = as_time v.updated_at;
  deadline = as_time v.deadline;
  failure_code = v.failure_code;
  active_deadline = v.active_deadline;
  clarification = present to_clarification v.clarification;
  progress = present to_progress v.progress;
}

unfoldable pub to_receipt : Wire.Receipt → CommandReceipt
unfolding enum_word
to_receipt r = record {
  command_id = r.command_id;
  operation_id = r.operation_id;
  kind = enum_word r.kind "COMMAND_KIND_";
  outcome = enum_word r.outcome "COMMAND_OUTCOME_";
  operation_revision = r.operation_revision;
  reason_code = r.reason_code;
  accepted_at = as_time r.accepted_at;
  settled_at = r.settled_at;
}

abbrev upload_of : Option Wire.Capability → Option UploadCapability
upload_of none = none
upload_of (some u) =
    if is_empty u.url
    then none
    else some (record {
      url = u.url;
      method = u.method;
      headers = u.headers;
      expires_at = as_time u.expires_at;
    })

unfoldable pub to_transfer : Wire.Transfer → Option Wire.Capability → TransferView
unfolding enum_word
to_transfer t upload = record {
  transfer_id = t.transfer_id;
  handle = t.handle;
  class = enum_word t.class "ARTIFACT_CLASS_";
  expected_digest = t.expected_digest;
  expected_size = t.expected_size;
  state = enum_word t.state "TRANSFER_STATE_";
  deadline = as_time t.deadline;
  object_version = t.object_version;
  reason_code = t.reason_code;
  upload = upload_of upload;
}

abbrev pub to_answer : Wire.Answered → AnswerReceipt
to_answer a = record {
  answer_id = a.answer_id;
  operation_id = a.operation_id;
  question_set_id = a.question_set_id;
  question_set_revision = a.question_set_revision;
  update_id = a.update_id;
  accepted_at = as_time a.accepted_at;
}

-- The error of a call goes through mapErr, its answer through the reader.
abbrev pub mapped : {A B : Type 0} → (A → B) → Called A → Answer B
mapped read (failed e) = failed (map_failed e "control")
mapped read (ok a) = ok (read a)

abbrev pub to_reference : SourceReference → Wire.Reference
to_reference r = record { source_id = r.source_id; revision = r.revision }
