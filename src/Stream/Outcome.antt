-- ===== src/Stream/Outcome.antt =====
-- What a stream comes to, over every schedule of its two goroutines.
use mathlib.Core.List.{append-nil}
use anvilkit_agent_api.Base.{
  ℕ, zero, suc, ◌≤◌, ◌≡◌, refl, ap, true, Option, none, some, List, [], ◌∷◌, ◌++◌, map, arith,
  length, take,
}
use anvilkit_agent_api.Stream.{
  StreamError, event, looping, closed, Stream, Action, opened, loop_step, handle, step, run,
  take_done,
}
use anvilkit_agent_api.Stream.Invariant.{
  sent, sent-append, encoded, Inv, opened-Inv, run-Inv, is_refused,
}
use anvilkit_agent_api.Stream.Delivery.{run-InOrder}

sent_all :
    {B : Type 0} (bs : List B) (k : ℕ) → length bs ≤ k → sent (take k (map event bs ++ [])) ≡ bs
sent_all [] zero h = refl
sent_all [] (suc k) h = refl
sent_all (b ∷ bs) zero h = elim h [ ]
sent_all (b ∷ bs) (suc k) h = ap (b ∷◌) (sent_all bs k (omega arith))

module _ {E B : Type 0} (encode : E → Option B) (capacity millis : ℕ) (all : List E) where
  pub reached-Inv :
      (ending : Option StreamError) (schedule : List Action) (t : Stream E B)
      → run encode capacity millis (opened all ending) schedule ≡ some t
      → Inv encode capacity all t
  reached-Inv ending schedule t h =
      run-Inv encode capacity millis all (opened all ending) t schedule h
        (opened-Inv encode capacity all ending)

  -- Under every schedule, the event frames written are a prefix of the frames of the events that
  -- Control had to send, in their order, and no more frames than the buffer's capacity are held.
  pub run_in_order :
      (ending : Option StreamError) (schedule : List Action) (t : Stream E B)
      → run encode capacity millis (opened all ending) schedule ≡ some t
      → ((rest : List B) × (sent t.written ++ rest ≡ encoded encode all))
        × (length t.frames ≤ capacity)
  run_in_order ending schedule t h = (
    run-InOrder encode capacity millis all (opened all ending) t schedule h
        (opened-Inv encode capacity all ending) (encoded encode all, refl),
    (reached-Inv ending schedule t h).bounded,
  )

  -- Under every schedule, once the handler is in its loop and takes the end of a stream that ended
  -- without error, with every write succeeding, the frames of all events have been written.
  pub clean_end_complete :
      (ending : Option StreamError) (schedule : List Action) (s t : Stream E B) (k : ℕ)
      → run encode capacity millis (opened all ending) schedule ≡ some s
      → s.handler ≡ looping
      → s.done ≡ some none
      → length s.frames ≤ k
      → step encode capacity millis s (take_done k) ≡ some t
      → (sent t.written ≡ encoded encode all) × (t.handler ≡ closed)
  unfolding step handle loop_step encoded
  clean_end_complete ending schedule s t k r q d l h =
      let v = reached-Inv ending schedule s r in
      ground (
        arith,
        v.finished,
        v.looping_admitted,
        v.kept,
        sent_all s.frames k,
        sent-append s.written (take k (map event s.frames ++ [])),
        append-nil s.frames,
      )

  -- Under every schedule, a request that is answered by an error envelope has had nothing written.
  pub refused_unwritten :
      (ending : Option StreamError) (schedule : List Action) (t : Stream E B)
      → run encode capacity millis (opened all ending) schedule ≡ some t
      → is_refused t.handler ≡ true
      → t.written ≡ []
  refused_unwritten ending schedule t h = (reached-Inv ending schedule t h).refused_unwritten
