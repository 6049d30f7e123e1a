-- ===== src/Stream.antt =====
-- The event stream handler (internal/transport/http/sse.go, streamEvents): the handler goroutine,
-- the producer goroutine that runs Control's StreamEvents, and the channels between them. Each atomic
-- action of either goroutine is an `Action`; a `select` with several ready cases may take any of
-- them, so a schedule is any list of actions, and `step` refuses one that is not ready. Encoding an
-- event is go's JSON and gin-contrib/sse, taken as a parameter.
pub mod Invariant
pub mod Delivery
pub mod Outcome
pub mod Returned
pub mod Shutdown
pub mod Race
pub mod Opening
pub mod Source
pub mod Payload
pub mod Reset
mod Examples
mod SourceExamples
use anvilkit_agent_api.Base.{
  ℕ, String, Bool, true, false, Option, none, some, List, [], ◌∷◌, ◌++◌, map, not, ◌||◌, ltb, leb,
  length, take, if◌then◌else◌,
}
use anvilkit_agent_api.Errors.{ApiError, Failure, from_control}

-- What Control's stream, or the emit callback that it calls, ends with when it is an error.
pub data StreamError : Type 0 where
  reset_required : String → StreamError
  slow_consumer : StreamError
  owner : Failure → StreamError

-- What is written to the connection.
pub data Output (B : Type 0) : Type 0 where
  retry : ℕ → Output B
  event : B → Output B
  heartbeat : Output B
  reset : String → Output B
  end : Output B

pub data Producer : Type 0 where
  contacting sending stopped : Producer

pub data Handler : Type 0 where
  selecting looping closed : Handler
  refused : ApiError → Handler

-- A handler that is `closed` or `refused` runs its deferred functions; it has `returned` once it has
-- joined the producer. `pending` and `ending` are what Control has yet to send and how its stream then ends; `frames` and
-- `done` are the two channels, `admitted` is true once that channel is closed, and `gone` once the
-- request's context is done. `done` keeps its value once the handler took it, which is the code's
-- `ended`.
pub record Stream (E B : Type 0) : Type 0 where
  pub pending : List E
  pub ending : Option StreamError
  pub producer : Producer
  pub frames : List B
  pub done : Option (Option StreamError)
  pub admitted : Bool
  pub handler : Handler
  pub gone : Bool
  pub returned : Bool
  pub written : List (Output B)

-- The client's disconnection, the actions of the producer, then those of the handler: a Bool says
-- whether the write succeeds, a number how many of the writes in a row do.
pub data Action : Type 0 where
  disconnect : Action
  admit emit grace_over finish canceled : Action
  take_admitted : Bool → Action
  take_early : ℕ → Action
  take_frame : Bool → Action
  tick : Bool → Action
  take_done : ℕ → Action
  draining : Bool → Action
  client_gone join : Action

abbrev pub shutting_down : ApiError
shutting_down = record {
  status = 503;
  code = "DEPENDENCY_UNAVAILABLE";
  message = "the server is shutting down";
  retryable = true;
  field = "";
}

-- The failure that fromControl reads when Control's stream ends early with an error.
abbrev pub failure_of : StreamError → Failure
failure_of (reset_required _) = Failure.other
failure_of slow_consumer = Failure.other
failure_of (owner f) = f

module _ {B : Type 0} where
  -- The frame that follows the buffered ones when the stream ended, with the request still alive or
  -- not.
  abbrev pub last_frame : Option StreamError → Bool → List (Output B)
  last_frame none alive = []
  last_frame (some (reset_required covered)) alive = reset covered ∷ []
  last_frame (some slow_consumer) alive = []
  last_frame (some (owner f)) alive = if alive then end ∷ [] else []

  -- Without an error there was nothing to send; a reset is the one frame.
  abbrev pub early_frames : ℕ → Option StreamError → List (Output B)
  early_frames millis none = retry millis ∷ []
  early_frames millis (some (reset_required covered)) = retry millis ∷ reset covered ∷ []
  early_frames millis (some e) = []

abbrev pub early_handler : Option StreamError → Handler
early_handler none = closed
early_handler (some (reset_required _)) = closed
early_handler (some e) = refused (from_control (failure_of e))

-- The handler has left its select or its loop, and its deferred cancel has run.
abbrev pub is_over : Handler → Bool
is_over selecting = false
is_over looping = false
is_over _ = true

-- A new stream: the producer goroutine has started and the handler waits for admission.
abbrev pub opened : {E B : Type 0} → List E → Option StreamError → Stream E B
opened events ending = record {
  pending = events;
  ending = ending;
  producer = contacting;
  frames = [];
  done = none;
  admitted = false;
  handler = selecting;
  gone = false;
  returned = false;
  written = [];
}

-- `capacity` is the channel's (FrameBuffer), `millis` the advertised reconnect interval.
module _ {E B : Type 0} (encode : E → Option B) (capacity millis : ℕ) where
  abbrev stop : Stream E B → Option StreamError → Stream E B
  stop s e = record s { producer = stopped; done = some e }

  -- The emit callback at the event `e`, after which `rest` is left.
  pub emit_step : Stream E B → List E → Option (Stream E B)
  emit_step s [] = none
  emit_step s (e ∷ rest) = elim (encode e) [
    | none ↦ some (stop s (some (owner Failure.other)))
    | some b ↦
        if ltb (length s.frames) capacity
        then some (record s { pending = rest; frames = s.frames ++ b ∷ [] })
        else none
  ]

  -- The timer of the emit callback fires only while the channel is full.
  grace_step : Stream E B → List E → Option (Stream E B)
  grace_step s [] = none
  grace_step s (e ∷ rest) = elim (encode e) [
    | none ↦ none
    | some b ↦ if leb capacity (length s.frames) then some (stop s (some slow_consumer)) else none
  ]

  finish_step : Stream E B → Producer → List E → Option (Stream E B)
  finish_step s contacting _ = some (stop s s.ending)
  finish_step s sending [] = some (stop s s.ending)
  finish_step s _ _ = none

  pub produce : Stream E B → Producer → Action → Option (Stream E B)
  unfolding emit_step grace_step finish_step
  produce s contacting admit = some (record s { producer = sending; admitted = true })
  produce s sending emit = emit_step s s.pending
  produce s sending grace_over = grace_step s s.pending
  produce s p finish = finish_step s p s.pending
  produce s stopped canceled = none
  produce s p canceled =
      if s.gone || is_over s.handler then some (stop s (some (owner Failure.other))) else none
  produce s _ _ = none

  -- The first select, and what follows it up to the loop.
  select_step : Stream E B → Action → Option (Stream E B)
  select_step s (take_admitted ok) =
      if s.admitted
      then some (
          if ok
          then record s { handler = looping; written = s.written ++ retry millis ∷ [] }
          else record s { handler = closed })
      else none
  select_step s (take_early k) = elim s.done [
    | none ↦ none
    | some e ↦ some (record s {
      handler = early_handler e;
      written = s.written ++ take k (early_frames millis e);
    })
  ]
  select_step s (draining ok) = some (record s { handler = refused shutting_down })
  select_step s client_gone = if s.gone then some (record s { handler = closed }) else none
  select_step s _ = none

  -- One write of the loop: the handler returns if it fails.
  abbrev put : Stream E B → Output B → Bool → Stream E B
  put s o ok =
      if ok then record s { written = s.written ++ o ∷ [] } else record s { handler = closed }

  take_frame_step : Stream E B → List B → Bool → Option (Stream E B)
  take_frame_step s [] ok = none
  take_frame_step s (b ∷ rest) ok = some (put (record s { frames = rest }) (event b) ok)

  -- One round of the loop.
  loop_step : Stream E B → Action → Option (Stream E B)
  unfolding take_frame_step
  loop_step s (take_frame ok) = take_frame_step s s.frames ok
  loop_step s (tick ok) = some (put s heartbeat ok)
  loop_step s (take_done k) = elim s.done [
    | none ↦ none
    | some e ↦ some (record s {
      handler = closed;
      frames = [];
      written = s.written ++ take k (map event s.frames ++ last_frame e (not s.gone));
    })
  ]
  loop_step s (draining ok) =
      some (record s { handler = closed; written = s.written ++ (if ok then end ∷ [] else []) })
  loop_step s client_gone = if s.gone then some (record s { handler = closed }) else none
  loop_step s _ = none

  -- The deferred join: the handler waits for the producer's end, unless it has taken it.
  pub return_step : Stream E B → Action → Option (Stream E B)
  return_step s join =
      if s.returned
      then none
      else elim s.done [ none ↦ none | some e ↦ some (record s { returned = true }) ]
  return_step s _ = none

  pub handle : Stream E B → Handler → Action → Option (Stream E B)
  unfolding select_step loop_step return_step
  handle s selecting a = select_step s a
  handle s looping a = loop_step s a
  handle s closed a = return_step s a
  handle s (refused e) a = return_step s a

  abbrev is_producer : Action → Bool
  is_producer admit = true
  is_producer emit = true
  is_producer grace_over = true
  is_producer finish = true
  is_producer canceled = true
  is_producer _ = false

  -- One atomic action, if it is ready.
  pub step : Stream E B → Action → Option (Stream E B)
  unfolding produce handle
  step s disconnect = some (record s { gone = true })
  step s a = if is_producer a then produce s s.producer a else handle s s.handler a

  -- A schedule: every action of it is ready in turn.
  pub run : Stream E B → List Action → Option (Stream E B)
  run s [] = some s
  run s (a ∷ rest) = elim (step s a) [ none ↦ none | some t ↦ run t rest ]
