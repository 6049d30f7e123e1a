-- ===== src/Stream/Source.antt =====
-- Where the producer's events come from (internal/adapters/control/client.go, StreamEvents): the
-- cursor's check, the stream with its headers, and the frames. `run_on` lets the producer of the two
-- goroutines do what StreamEvents does: it is admitted only where StreamEvents calls `admitted`, and
-- returns before that only where StreamEvents does.
use anvilkit_agent_api.Base.{
  ℕ, String, Bool, true, false, Option, none, some, List, [], ◌∷◌, map, if◌then◌else◌,
}
use text.Mathlib.Text.{◌==◌ as str_eq}
use anvilkit_agent_api.Base.Int.{ℤ}
use anvilkit_agent_api.Base.Results.{failed, ok}
use anvilkit_agent_api.Errors
use anvilkit_agent_api.Errors.Owner.{OwnerError, map_failed}
use anvilkit_agent_api.Access.{Principal}
use anvilkit_agent_api.Control.Wire
use anvilkit_agent_api.Control.Wire.{Called}
use anvilkit_agent_api.Control.Client.{scope, enum_word, as_time}
use anvilkit_agent_api.Stream.{
  StreamError, reset_required, owner, Producer, contacting, Stream, Action, admit, finish, opened,
  step,
}

-- application.EventFrame
pub record EventFrame : Type 0 where
  pub operation_id : String
  pub event_seq : String
  pub transition_id : String
  pub event_type : String
  pub revision : String
  pub occurred_at : ℤ
  pub lifecycle : String
  pub phase : String
  pub control : String
  pub cleanup : String
  pub finance : String
  pub failure_code : String
  pub step : String
  pub visit : String
  pub attempt_ordinal : String
  pub verdict : String
  pub verdict_code : String
  pub node : String
  pub node_state : String
  pub round : String
  pub outcome_code : String

-- Control's messages, as far as they are read or written; an enumerator is its name.
pub record Event : Type 0 where
  pub operation_id : String
  pub event_seq : String
  pub transition_id : String
  pub event_type : String
  pub revision : String
  pub occurred_at : Option ℤ
  pub lifecycle : String
  pub phase : String
  pub control : String
  pub cleanup : String
  pub finance : String
  pub failure_code : String
  pub step : String
  pub visit : String
  pub attempt_ordinal : String
  pub verdict : String
  pub verdict_code : String
  pub node : String
  pub node_state : String
  pub round : String
  pub outcome_code : String

pub record ListEvents : Type 0 where
  pub scope : Wire.Scope
  pub operation_id : String
  pub after_event_seq : String
  pub limit : ℕ

pub record StreamRequest : Type 0 where
  pub scope : Wire.Scope
  pub operation_id : String
  pub after_event_seq : String

pub record Page : Type 0 where
  pub reset_required : Bool
  pub covered_event_seq : String

-- A stream: whether its response has headers, or that this failed; then what Recv answers, up to the
-- error that ends it, which is none for io.EOF.
pub record Received : Type 0 where
  pub header : Called Bool
  pub messages : List Event
  pub ending : Option OwnerError

pub record EventStubs : Type 0 where
  pub list_operation_events : ListEvents → Called Page
  pub stream_operation_events : StreamRequest → Called Received

-- StreamEvents returns before it calls `admitted`, or emits frames and then returns.
pub data Feed : Type 0 where
  refused : Option StreamError → Feed
  flowing : List EventFrame → Option StreamError → Feed

abbrev owner_error : OwnerError → StreamError
owner_error e = owner (Errors.control (map_failed e "control"))

unfoldable pub verdict_of : String → String
unfolding enum_word
verdict_of name = if str_eq name "VERDICT_UNSPECIFIED" then "" else enum_word name "VERDICT_"

unfoldable pub to_frame : Event → EventFrame
unfolding enum_word verdict_of
to_frame ev = record {
  operation_id = ev.operation_id;
  event_seq = ev.event_seq;
  transition_id = ev.transition_id;
  event_type = ev.event_type;
  revision = ev.revision;
  occurred_at = as_time ev.occurred_at;
  lifecycle = enum_word ev.lifecycle "LIFECYCLE_";
  phase = ev.phase;
  control = enum_word ev.control "CONTROL_STATE_";
  cleanup = enum_word ev.cleanup "CLEANUP_STATE_";
  finance = enum_word ev.finance "FINANCE_STATE_";
  failure_code = ev.failure_code;
  step = ev.step;
  visit = ev.visit;
  attempt_ordinal = ev.attempt_ordinal;
  verdict = verdict_of ev.verdict;
  verdict_code = ev.verdict_code;
  node = ev.node;
  node_state = ev.node_state;
  round = ev.round;
  outcome_code = ev.outcome_code;
}

abbrev ending_of : Option OwnerError → Option StreamError
ending_of none = none
ending_of (some e) = some (owner_error e)

-- Without headers the status is what the first Recv answers.
abbrev first_status : List Event → Option OwnerError → Option StreamError
first_status [] ending = ending_of ending
first_status (m ∷ ms) ending = none

unfoldable pub received : Received → Called Bool → Feed
unfolding to_frame
received stream (failed e) = refused (some (owner_error e))
received stream (ok false) = refused (first_status stream.messages stream.ending)
received stream (ok true) = flowing (map to_frame stream.messages) (ending_of stream.ending)

abbrev streamed : Called Received → Feed
streamed (failed e) = refused (some (owner_error e))
streamed (ok stream) = received stream stream.header

module _ (stubs : EventStubs) (p : Principal) (operation_id after_seq : String) where
  abbrev paged : Called Page → Feed
  paged (failed e) = refused (some (owner_error e))
  paged (ok page) =
      if page.reset_required
      then refused (some (reset_required page.covered_event_seq))
      else streamed (
          stubs.stream_operation_events
            (record { scope = scope p; operation_id = operation_id; after_event_seq = after_seq }))

  unfoldable pub stream_events : Feed
  unfolding scope received
  stream_events = paged (
      stubs.list_operation_events (record {
        scope = scope p;
        operation_id = operation_id;
        after_event_seq = after_seq;
        limit = 1;
      }))

-- What a producer of the feed may do: `admit` where it was admitted, and from there it does not
-- return without its frames.
abbrev pub follows : Feed → Producer → Action → Bool
follows (refused e) p admit = false
follows (flowing events ending) contacting finish = false
follows f p a = true

module _ {B : Type 0} (encode : EventFrame → Option B) (capacity millis : ℕ) (f : Feed) where
  -- The stream of a request that starts the producer over the feed.
  abbrev pub events_of : Feed → List EventFrame
  events_of (refused e) = []
  events_of (flowing events ending) = events

  abbrev pub ending_in : Feed → Option StreamError
  ending_in (refused e) = e
  ending_in (flowing events ending) = ending

  unfoldable pub opened_on : Stream EventFrame B
  opened_on = opened (events_of f) (ending_in f)

  unfoldable pub step_on : Stream EventFrame B → Action → Option (Stream EventFrame B)
  unfolding step
  step_on s a = if follows f s.producer a then step encode capacity millis s a else none

  unfoldable pub run_on : Stream EventFrame B → List Action → Option (Stream EventFrame B)
  unfolding step_on
  run_on s [] = some s
  run_on s (a ∷ rest) = elim (step_on s a) [ none ↦ none | some t ↦ run_on t rest ]
