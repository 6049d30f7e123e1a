-- ===== src/Stream/Returned.antt =====
-- What follows the handler's return (internal/transport/http/sse.go: the deferred cancel and join).
use mathlib.Core.Option.{some-injective}
use anvilkit_agent_api.Base.{
  ℕ, ◌≡◌, sym, ap, ◌∙◌, inl, inr, true, Option, none, some, List, [], ◌∷◌, Option-cases,
}
use anvilkit_agent_api.Stream.{
  StreamError, Producer, contacting, sending, stopped, Handler, selecting, looping, closed, refused,
  Stream, Action, is_over, opened, return_step, handle, produce, step, run, disconnect, admit, emit,
  grace_over, finish, canceled, join,
}
use anvilkit_agent_api.Stream.Invariant.{Inv, step-Inv}
use anvilkit_agent_api.Stream.Outcome.{reached-Inv}

module _ {E B : Type 0} (encode : E → Option B) (capacity millis : ℕ) (all : List E) where
  produce_stopped :
      (s t : Stream E B) (p : Producer) (a : Action)
      → p ≡ stopped
      → produce encode capacity millis s p a ≡ some t
      → ⊥
  unfolding produce
  produce_stopped s t contacting a q h = cc
  produce_stopped s t sending a q h = cc
  produce_stopped s t stopped canceled q h = cc
  produce_stopped s t stopped finish q h = cc
  produce_stopped s t stopped a q h = cc

  return_once :
      (s t : Stream E B) (a : Action)
      → s.returned ≡ true
      → return_step encode capacity millis s a ≡ some t
      → ⊥
  unfolding return_step
  return_once s t join r h = let stop : none ≡ some t = rw r at h in cc
  return_once s t _ r h = cc

  handle_returned :
      (s t : Stream E B) (w : Handler) (a : Action)
      → is_over w ≡ true
      → s.returned ≡ true
      → handle encode capacity millis s w a ≡ some t
      → ⊥
  unfolding handle
  handle_returned s t selecting a o r h = cc
  handle_returned s t looping a o r h = cc
  handle_returned s t closed a o r h = return_once s t a r h
  handle_returned s t (refused e) a o r h = return_once s t a r h

  -- Only the client's disconnection follows a return.
  step_returned :
      (s t : Stream E B) (a : Action)
      → Inv encode capacity all s
      → s.returned ≡ true
      → step encode capacity millis s a ≡ some t
      → record s { gone = true } ≡ t
  unfolding step
  step_returned s t disconnect v r h = some-injective _ t h
  step_returned s t admit v r h =
      absurd (produce_stopped s t s.producer admit (v.returned_stopped r) h)
  step_returned s t emit v r h =
      absurd (produce_stopped s t s.producer emit (v.returned_stopped r) h)
  step_returned s t grace_over v r h =
      absurd (produce_stopped s t s.producer grace_over (v.returned_stopped r) h)
  step_returned s t finish v r h =
      absurd (produce_stopped s t s.producer finish (v.returned_stopped r) h)
  step_returned s t canceled v r h =
      absurd (produce_stopped s t s.producer canceled (v.returned_stopped r) h)
  step_returned s t a v r h = absurd (handle_returned s t s.handler a (v.returned_over r) r h)

  run_returned :
      (s t : Stream E B) (later : List Action)
      → Inv encode capacity all s
      → s.returned ≡ true
      → run encode capacity millis s later ≡ some t
      → (t.producer ≡ s.producer) × (t.frames ≡ s.frames) × (t.written ≡ s.written)
  unfolding run
  run_returned s t [] v r h =
      let same : s ≡ t = some-injective s t h in
      (
        ap (λ x. x.producer) (sym same),
        ap (λ x. x.frames) (sym same),
        ap (λ x. x.written) (sym same),
      )
  run_returned s t (a ∷ rest) v r h = elim (Option-cases (step encode capacity millis s a)) [
    | inl stuck ↦ let stop : none ≡ some t = rw (stuck, run) at h in cc
    | inr (u, e) ↦
        let same : record s { gone = true } ≡ u = step_returned s u a v r e in
        let (p, f, w) =
          run_returned u t rest (step-Inv encode capacity millis all s u a e v)
            (sym (ap (λ x. x.returned) same) ∙ r) (rw (e, run) at h) in
        (
          p ∙ sym (ap (λ x. x.producer) same),
          f ∙ sym (ap (λ x. x.frames) same),
          w ∙ sym (ap (λ x. x.written) same),
        )
  ]

  -- Under every schedule, the producer has stopped when the handler returns, and nothing touches the
  -- response or the buffer afterwards, whatever happens later.
  pub returned_joined :
      (ending : Option StreamError) (schedule later : List Action) (s t : Stream E B)
      → run encode capacity millis (opened all ending) schedule ≡ some s
      → s.returned ≡ true
      → run encode capacity millis s later ≡ some t
      → (s.producer ≡ stopped)
        × (t.producer ≡ stopped)
        × (t.frames ≡ s.frames)
        × (t.written ≡ s.written)
  returned_joined ending schedule later s t h r k =
      let v = reached-Inv encode capacity millis all ending schedule s h in
      let (p, f, w) = run_returned s t later v r k in
      (v.returned_stopped r, p ∙ v.returned_stopped r, f, w)
