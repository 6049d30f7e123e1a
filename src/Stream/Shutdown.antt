-- ===== src/Stream/Shutdown.antt =====
-- How a handler comes to return (internal/transport/http/sse.go): by the server's shutdown, and then
-- its deferred cancel and join.
use anvilkit_agent_api.Base.{ℕ, ◌≡◌, true, Option, some, List, [], ◌∷◌}
use anvilkit_agent_api.Stream.{
  Output, end, Handler, selecting, looping, closed, refused, Stream, Action, run, shutting_down,
}

module _ {B : Type 0} where
  -- What the shutdown has the handler write: nothing outside its loop.
  abbrev pub farewell : Handler → List (Output B)
  farewell looping = end ∷ []
  farewell _ = []

module _ {E B : Type 0} (encode : E → Option B) (capacity millis : ℕ) (all : List E) where
  -- A handler with nothing left to do can return by actions that are ready in turn, and writes nothing.
  abbrev CanReturn : Stream E B → Type 0
  CanReturn s =
      (schedule : List Action) × (t : Stream E B) × (run encode capacity millis s schedule ≡ some t)
      × (t.returned ≡ true)
      × (t.written ≡ s.written)

  -- The handler's state once it took the shutdown.
  abbrev left_by : Handler → Handler
  left_by selecting = refused shutting_down
  left_by looping = closed
  left_by w = w
