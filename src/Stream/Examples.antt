-- ===== src/Stream/Examples.antt =====
-- Runs of the stream over numbered events, and its theorems there.
use anvilkit_agent_api.Base.{
  ℕ, ◌≤◌, ◌≡◌, refl, true, false, Option, none, some, List, [], ◌∷◌, ◌++◌, arith, length,
}
use anvilkit_agent_api.Stream.{
  retry, event, stopped, looping, closed, refused, Stream, Action, opened, step, run, shutting_down,
  owner, disconnect, join, admit, emit, finish, canceled, take_admitted, take_frame, take_done,
  draining,
}
use anvilkit_agent_api.Stream.Invariant.{sent, encoded}
use anvilkit_agent_api.Stream.Outcome.{run_in_order, clean_end_complete, refused_unwritten}
use anvilkit_agent_api.Stream.Returned.{returned_joined}
use anvilkit_agent_api.Stream.Race.{early_end_loses}
use anvilkit_agent_api.Stream.Opening.{
  Named, preferred, passed, is_cursor, is_sequence, digits, bind_cursor, subject_of, open_stream,
  open_stream-passed,
}
use anvilkit_agent_api.Limiter.{StreamLimiter, acquire}
use anvilkit_agent_api.Base.Dict.{lookup}
use anvilkit_agent_api.Errors.{Failure}

abbrev backlog : List ℕ
backlog = 7 ∷ 8 ∷ []

abbrev at_capacity : List Action → Option (Stream ℕ ℕ)
at_capacity = run some 2 3000 (opened backlog none)

-- The handler is in its loop, one frame is delivered and one is held, and the producer ended.
abbrev ended : Stream ℕ ℕ
ended = record {
  pending = [];
  ending = none;
  producer = stopped;
  frames = 8 ∷ [];
  done = some none;
  admitted = true;
  handler = looping;
  gone = false;
  returned = false;
  written = retry 3000 ∷ event 7 ∷ [];
}

abbrev to_end : List Action
to_end = admit ∷ take_admitted true ∷ emit ∷ emit ∷ take_frame true ∷ finish ∷ []

reaches_end : at_capacity to_end ≡ some ended
unfolding run step
reaches_end = refl

abbrev over : Stream ℕ ℕ
over = record ended { handler = closed; frames = []; written = retry 3000 ∷ event 7 ∷ event 8 ∷ [] }

takes_end : step some 2 3000 ended (take_done 5) ≡ some over
unfolding step
takes_end = refl

run_in_order_example :
    ((rest : List ℕ) × (sent ended.written ++ rest ≡ encoded some backlog))
    × (length ended.frames ≤ 2)
run_in_order_example = run_in_order some 2 3000 backlog none to_end ended reaches_end

clean_end_complete_example : (sent over.written ≡ encoded some backlog) × (over.handler ≡ closed)
clean_end_complete_example =
    clean_end_complete some 2 3000 backlog none to_end ended over 5 reaches_end refl refl
      (omega arith) takes_end

abbrev turned_away : Stream ℕ ℕ
turned_away = record (opened backlog none) { handler = refused shutting_down }

drains_early : at_capacity (draining true ∷ []) ≡ some turned_away
unfolding run step
drains_early = refl

refused_unwritten_example : turned_away.written ≡ []
refused_unwritten_example =
    refused_unwritten some 2 3000 backlog none (draining true ∷ []) turned_away drains_early refl

-- The handler joins the producer that its cancel has stopped; the client leaves afterwards.
abbrev joined : Stream ℕ ℕ
joined = record turned_away {
  producer = stopped;
  done = some (some (owner Failure.other));
  returned = true;
}

abbrev to_return : List Action
to_return = draining true ∷ canceled ∷ join ∷ []

joins : at_capacity to_return ≡ some joined
unfolding run step
joins = refl

-- While the producer runs, the handler cannot return.
waits : at_capacity (draining true ∷ join ∷ []) ≡ none
unfolding run step
waits = refl

disconnects : run some 2 3000 joined (disconnect ∷ []) ≡ some (record joined { gone = true })
unfolding run step
disconnects = refl

returned_joined_example :
    (joined.producer ≡ stopped)
    × (joined.producer ≡ stopped)
    × (joined.frames ≡ joined.frames)
    × (joined.written ≡ joined.written)
returned_joined_example =
    returned_joined some 2 3000 backlog none to_return (disconnect ∷ []) joined
      (record joined { gone = true }) joins refl disconnects

early_end_loses_example :
    (schedule : List Action) × (t : Stream ℕ ℕ) × (run some 2 3000 (opened backlog none) schedule
      ≡ some t)
    × (t.handler ≡ closed)
    × (t.gone ≡ false)
    × (t.written ≡ retry 3000 ∷ [])
    × (t.frames ≡ encoded some backlog)
    × (t.done ≡ some none)
early_end_loses_example =
    early_end_loses some 2 3000 backlog ((7, refl), ((8, refl), tt)) (omega arith)

abbrev idle_limiter : StreamLimiter
idle_limiter = record { max = 8; per_subject = 2; total = 0; by_subject = [] }

-- A reconnecting client: an empty `after`, and the header of its last event.
abbrev reconnecting : Named
reconnecting = record {
  query_after = some "";
  query_last_event_id = none;
  header_after = none;
  header_last_event_id = some "17";
}

-- A header wins over the query's cursor where its name is the field's.
header_wins :
    bind_cursor (record reconnecting { query_after = some "5"; header_after = some "9" })
    ≡ passed "9"
unfolding bind_cursor is_sequence digits
header_wins = refl

cursor_opens : (open_stream idle_limiter "acme" "kim" reconnecting none).1 ≡ passed "17"
unfolding open_stream bind_cursor is_sequence digits acquire lookup
cursor_opens = refl

open_stream-passed_example :
    (is_cursor "17" ≡ true)
    × ("17" ≡ preferred reconnecting)
    × (◌≡◌ {A = Option Failure} none none)
    × ((open_stream idle_limiter "acme" "kim" reconnecting none).0
        ≡ (acquire idle_limiter (subject_of "acme" "kim")).0)
    × ((acquire idle_limiter (subject_of "acme" "kim")).1 ≡ true)
open_stream-passed_example =
    open_stream-passed idle_limiter "acme" "kim" reconnecting none "17" cursor_opens
