-- ===== src/Stream/SourceExamples.antt =====
-- StreamEvents over a Control whose cursor expired, and over one that sends an event.
use anvilkit_agent_api.Base.{
  String, ◌≡◌, refl, true, false, Option, none, some, List, [], ◌∷◌, ◌++◌,
}
use anvilkit_agent_api.Base.Int.{pos}
use anvilkit_agent_api.Base.Results.{ok, failed}
use anvilkit_agent_api.Errors.Owner.{no_status}
use anvilkit_agent_api.Access.{Principal}
use anvilkit_agent_api.Control.Client.{enum_word}
use anvilkit_agent_api.Stream.{
  Output, retry, reset, closed, stopped, Stream, Action, finish, take_early, reset_required,
}
use anvilkit_agent_api.Stream.Source.{
  EventFrame, Event, EventStubs, Page, Feed, refused, stream_events, opened_on, run_on, to_frame,
}
use anvilkit_agent_api.Stream.Payload.{
  frame_document, read_frame, read_frame-frame_document, word, object,
}
use anvilkit_agent_api.Stream.Reset.{reset_not_silent}

abbrev actor : Principal
actor = record { tenant_id = "t1"; project_id = "p1"; actor_id = "a1"; roles = [] }

abbrev expired : Page
expired = record { reset_required = true; covered_event_seq = "41" }

abbrev changed : Event
changed = record {
  operation_id = "op1";
  event_seq = "42";
  transition_id = "tr1";
  event_type = "operation_changed";
  revision = "3";
  occurred_at = some (pos 9);
  lifecycle = "LIFECYCLE_RUNNING";
  phase = "build";
  control = "CONTROL_STATE_NONE";
  cleanup = "";
  finance = "";
  failure_code = "";
  step = "";
  visit = "";
  attempt_ordinal = "";
  verdict = "VERDICT_UNSPECIFIED";
  verdict_code = "";
  node = "";
  node_state = "";
  round = "";
  outcome_code = "";
}

abbrev behind : EventStubs
behind = record {
  list_operation_events = λ r. ok expired;
  stream_operation_events = λ r. failed no_status;
}

abbrev sending : EventStubs
sending = record {
  list_operation_events = λ r. ok (record { reset_required = false; covered_event_seq = "" });
  stream_operation_events =
      λ r. ok (record { header = ok true; messages = changed ∷ []; ending = none });
}

abbrev plain : EventFrame → Option String
plain f = some f.event_seq

abbrev behind_feed : Feed
behind_feed = refused (some (reset_required "41"))

reads_expired : stream_events behind actor "op1" "7" ≡ behind_feed
unfolding stream_events
reads_expired = refl

abbrev reset_sent : Stream EventFrame String
reset_sent = record {
  pending = [];
  ending = some (reset_required "41");
  producer = stopped;
  frames = [];
  done = some (some (reset_required "41"));
  admitted = false;
  handler = closed;
  gone = false;
  returned = false;
  written = retry 3000 ∷ reset "41" ∷ [];
}

abbrev early : List Action
early = finish ∷ take_early 2 ∷ []

resets :
    run_on plain 4 3000
      (stream_events behind actor "op1" "7")
      (opened_on plain 4 3000 (stream_events behind actor "op1" "7"))
      early
    ≡ some reset_sent
unfolding run_on stream_events opened_on
resets = refl

reset_not_silent_example :
    (rest : List (Output String)) × (reset_sent.written ++ rest ≡ retry 3000 ∷ reset "41" ∷ [])
reset_not_silent_example =
    reset_not_silent plain 4 3000 behind actor "op1" "7" expired early reset_sent refl refl resets

-- The producer of an admitted feed cannot return before its frames.
keeps_on :
    run_on plain 4 3000
      (stream_events sending actor "op1" "7")
      (opened_on plain 4 3000 (stream_events sending actor "op1" "7"))
      early
    ≡ none
unfolding run_on stream_events opened_on
keeps_on = refl

words :
    frame_document (λ t. "1970-01-01T00:00:00.000000009Z") (to_frame changed)
    ≡ ("operationId", word "op1")
      ∷ ("eventSeq", word "42")
      ∷ ("transitionId", word "tr1")
      ∷ ("eventType", word "operation_changed")
      ∷ ("revision", word "3")
      ∷ ("occurredAt", word "1970-01-01T00:00:00.000000009Z")
      ∷ (
        "payload",
        object (("lifecycle", "running") ∷ ("phase", "build") ∷ ("control", "none") ∷ []),
      )
      ∷ []
unfolding frame_document to_frame enum_word
words = refl

read_frame-frame_document_example :
    read_frame (pos 9) (frame_document (λ t. "9") (to_frame changed)) ≡ to_frame changed
unfolding to_frame
read_frame-frame_document_example =
    read_frame-frame_document (λ s. pos 9) (λ t. "9") (to_frame changed) refl
