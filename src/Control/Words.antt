-- ===== src/Control/Words.antt =====
-- The words and the views that cross the API, read back.
use text.Mathlib.Text.{◌==◌ as str_eq}
use text.Mathlib.TextEquality.{eq_iff}
use mathlib.Core.Option.{some-injective}
use anvilkit_agent_api.Base.{
  String, ◌≡◌, refl, sym, ap, ◌∙◌, Option, none, some, List, [], ◌∷◌, map, All, inl, inr,
  Bool-cases,
}
use anvilkit_agent_api.Base.Text.{is_empty}
use anvilkit_agent_api.Base.Dict.{lookup}
use anvilkit_agent_api.Control.{
  OperationSubject, OperationProgress, Question, Clarification, OperationView, opt_str, deref,
}
use anvilkit_agent_api.Control.Client.{
  kinds, command_kinds, artifact_classes, enum_word, to_subject, present,
}
use anvilkit_agent_api.Control.Requests.{subject_request}
use anvilkit_agent_api.Control.Public
use anvilkit_agent_api.Control.Public.{
  public_subject, public_progress, public_question, public_questions, view_to_public,
  transfer_to_public,
}

-- The vocabularies that the client translates both ways.
pub data Vocabulary : Type 0 where
  operation_kinds control_commands classes : Vocabulary

unfoldable pub table_of : Vocabulary → List (String × String)
table_of operation_kinds = kinds
table_of control_commands = command_kinds
table_of classes = artifact_classes

pub prefix_of : Vocabulary → String
prefix_of operation_kinds = "OPERATION_KIND_"
prefix_of control_commands = "COMMAND_KIND_"
prefix_of classes = "ARTIFACT_CLASS_"

lookup-All :
    (word name prefix : String) (table : List (String × String))
    → All (λ e. enum_word e.1 prefix ≡ e.0) table
    → lookup word table ≡ some name
    → enum_word name prefix ≡ word
unfolding lookup
lookup-All word name prefix [] all h = let stop : none ≡ some name = h in cc
lookup-All word name prefix ((key, value) ∷ rest) (same, all) h =
    elim (Bool-cases (str_eq key word)) [
      | inl found ↦
          let e : some value ≡ some name = rw (found, lookup) at h in
          ap (λ n. enum_word n prefix) (sym (some-injective value name e))
          ∙ same
          ∙ (eq_iff key word).0 found
      | inr other ↦ lookup-All word name prefix rest all (rw (other, lookup) at h)
    ]

tables : (v : Vocabulary) → All (λ e. enum_word e.1 (prefix_of v) ≡ e.0) (table_of v)
unfolding table_of prefix_of enum_word
tables operation_kinds = (refl, (refl, (refl, (refl, (refl, (refl, tt))))))
tables control_commands = (refl, (refl, (refl, (refl, tt))))
tables classes =
    (refl, (refl, (refl, (refl, (refl, (refl, (refl, (refl, (refl, (refl, (refl, tt)))))))))))

-- A kind, command or class that the client translates for Control comes back from Control's
-- enumerator as the word that it was.
pub word_back :
    (v : Vocabulary) (word name : String)
    → lookup word (table_of v) ≡ some name
    → enum_word name (prefix_of v) ≡ word
word_back v word name h = lookup-All word name (prefix_of v) (table_of v) (tables v) h

deref-opt_str : (s : String) → deref (opt_str s) ≡ s
unfolding deref opt_str
deref-opt_str s = elim (Bool-cases (is_empty s)) [
  | inl empty ↦ rw empty (sym ((eq_iff s "").0 empty))
  | inr given ↦ rw given refl
]

-- The subject of a request, read as the client reads Control's subjects, is the subject asked for.
pub to_subject-subject_request : (s : OperationSubject) → to_subject (subject_request s) ≡ s
unfolding to_subject subject_request
to_subject-subject_request s =
    rw
      (
        deref-opt_str s.brief_id,
        deref-opt_str s.source_revision,
        deref-opt_str s.source_handle,
        deref-opt_str s.source_operation_id,
        deref-opt_str s.package_version,
      )
      refl

-- The view as a reader of the public contract has it back.
abbrev read_subject : Public.Subject → OperationSubject
read_subject s = record {
  profile_id = s.profile_id;
  subject_digest = s.subject_digest;
  brief_id = deref s.brief_id;
  source_revision = deref s.source_revision;
  source_handle = deref s.source_handle;
  source_operation_id = deref s.source_operation_id;
  package_version = deref s.package_version;
}

abbrev read_progress : Public.Progress → OperationProgress
read_progress p = record {
  step = p.step;
  visit = p.visit;
  attempt_ordinal = p.attempt_ordinal;
  node = deref p.node;
  node_state = deref p.node_state;
  round = deref p.round;
  event_seq = p.event_seq;
}

abbrev read_question : Public.AskedQuestion → Question
read_question q = record { question_id = q.question_id; text = q.text }

abbrev read_questions : Public.QuestionSet → Clarification
read_questions c = record {
  question_set_id = c.question_set_id;
  question_set_revision = c.question_set_revision;
  round = c.round;
  asked_at = c.asked_at;
  expires_at = c.expires_at;
  questions = map read_question c.questions;
}

pub read_view : Public.Operation → OperationView
read_view v = record {
  operation_id = v.operation_id;
  tenant_id = v.tenant_id;
  project_id = deref v.project_id;
  actor_id = v.actor_id;
  kind = v.kind;
  subject = read_subject v.subject;
  lifecycle = v.lifecycle;
  phase = v.phase;
  control = v.control;
  cleanup = v.cleanup;
  finance = v.finance;
  revision = v.revision;
  covered_event_seq = v.covered_event_seq;
  execution_epoch = v.execution_epoch;
  created_at = v.created_at;
  updated_at = v.updated_at;
  deadline = v.deadline;
  failure_code = deref v.failure_code;
  active_deadline = v.active_deadline;
  clarification = present read_questions v.clarification;
  progress = present read_progress v.progress;
}

subject_back : (s : OperationSubject) → read_subject (public_subject s) ≡ s
unfolding public_subject
subject_back s =
    rw
      (
        deref-opt_str s.brief_id,
        deref-opt_str s.source_revision,
        deref-opt_str s.source_handle,
        deref-opt_str s.source_operation_id,
        deref-opt_str s.package_version,
      )
      refl

progress_back :
    (p : Option OperationProgress) → present read_progress (present public_progress p) ≡ p
unfolding public_progress
progress_back none = refl
progress_back (some p) =
    rw (deref-opt_str p.node, deref-opt_str p.node_state, deref-opt_str p.round) refl

question_list : (qs : List Question) → map read_question (map public_question qs) ≡ qs
unfolding public_question
question_list [] = refl
question_list (q ∷ qs) = rw (question_list qs)

questions_back :
    (c : Option Clarification) → present read_questions (present public_questions c) ≡ c
unfolding public_questions
questions_back none = refl
questions_back (some c) = rw (question_list c.questions) refl

-- The public view of an operation leaves nothing out and mixes nothing up: with each absent member
-- read as the empty text, it is the view that Control's client read.
pub read_view-view_to_public : (v : OperationView) → read_view (view_to_public v) ≡ v
unfolding read_view view_to_public
read_view-view_to_public v =
    rw
      (
        subject_back v.subject,
        progress_back v.progress,
        questions_back v.clarification,
        deref-opt_str v.project_id,
        deref-opt_str v.failure_code,
      )
      refl
