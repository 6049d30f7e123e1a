-- ===== src/Stream/Delivery.antt =====
-- What a client receives: the frames in order, nothing twice, and when nothing is missing.
use mathlib.Core.List.{append_assoc, append-nil}
use mathlib.Core.Option.{some-injective}
use mathlib.Core.Path.{subst}
use anvilkit_agent_api.Base.{
  ℕ, ◌≡◌, refl, ap, ◌⊎◌, inl, inr, true, false, not, Option, none, some, List, [], ◌∷◌, ◌++◌, map,
  arith, take, Bool-cases, Option-cases,
}
use anvilkit_agent_api.Stream.{
  retry, event, end, Producer, contacting, sending, stopped, Handler, selecting, looping, closed,
  refused, Stream, Action, is_over, last_frame, early_frames, select_step, take_frame_step,
  loop_step, return_step, handle, produce, join, step, run, disconnect, admit, emit, grace_over,
  finish, canceled, take_admitted, take_early, take_frame, tick, take_done, draining, client_gone,
}
use anvilkit_agent_api.Stream.Invariant.{
  sent, sent-append, sent_taken, sent-last_frame, sent-early_frames, encoded, Inv, step-Inv,
}

module _ {E B : Type 0} (encode : E → Option B) (capacity millis : ℕ) (all : List E) where
  -- The frames written so far are the first of those that Control had to send.
  abbrev pub InOrder : Stream E B → Type 0
  InOrder s = (rest : List B) × (sent s.written ++ rest ≡ encoded encode all)

  running-InOrder :
      (s : Stream E B) → is_over s.handler ≡ false → Inv encode capacity all s → InOrder s
  running-InOrder s h v = (s.frames ++ encoded encode s.pending, v.kept h)

  same-InOrder : (s t : Stream E B) → sent t.written ≡ sent s.written → InOrder s → InOrder t
  same-InOrder s t e (rest, h) = (rest, rw e h)

  produce_written :
      (s t : Stream E B) (p : Producer) (a : Action)
      → produce encode capacity millis s p a ≡ some t
      → t.written ≡ s.written
  unfolding produce
  produce_written s t contacting admit h = ground arith
  produce_written s t sending emit h = ground arith
  produce_written s t sending grace_over h = ground arith
  produce_written s t contacting finish h = ground arith
  produce_written s t sending finish h = ground arith
  produce_written s t stopped finish h = ground arith
  produce_written s t contacting canceled h = ground arith
  produce_written s t sending canceled h = ground arith
  produce_written s t _ _ h = cc

  select_step-sent :
      (s t : Stream E B) (a : Action)
      → select_step encode capacity millis s a ≡ some t
      → sent t.written ≡ sent s.written
  unfolding select_step
  select_step-sent s t (take_admitted ok) h =
      ground (arith, sent-append s.written (retry millis ∷ []), append-nil (sent s.written))
  select_step-sent s t (take_early k) h = elim (Option-cases s.done) [
    | inl waiting ↦ ground arith
    | inr (e, ended) ↦ ground (
      arith,
      ended,
      sent-append s.written (take k (early_frames millis e)),
      sent-early_frames {B = B} k millis e,
      append-nil (sent s.written),
    )
  ]
  select_step-sent s t (draining ok) h = ground arith
  select_step-sent s t client_gone h = ground arith
  select_step-sent s t _ h = cc

  -- The frames written once the producer's end was taken, and those that the client misses.
  take_done-InOrder :
      (s t : Stream E B) (k : ℕ)
      → s.handler ≡ looping
      → loop_step encode capacity millis s (take_done k) ≡ some t
      → Inv encode capacity all s
      → InOrder t
  unfolding loop_step
  take_done-InOrder s t k q h v = elim (Option-cases s.done) [
    | inl waiting ↦ let stop : none ≡ some t = rw (waiting, loop_step) at h in cc
    | inr (e, ended) ↦
        let last = last_frame {B = B} e (not s.gone) in
        let (missed, p) = sent_taken k s.frames last (sent-last_frame e (not s.gone)) in
        let all_written : t.written ≡ s.written ++ take k (map event s.frames ++ last) =
          ground (arith, ended) in
        (
          missed ++ encoded encode s.pending,
          rw (all_written, sent-append)
              (cc (
                p,
                v.kept (ground arith),
                append_assoc (sent s.written) (sent (take k (map event s.frames ++ last)))
                    (missed ++ encoded encode s.pending),
                append_assoc (sent (take k (map event s.frames ++ last))) missed
                    (encoded encode s.pending),
              )),
        )
  ]

  loop_closed_sent :
      (s t : Stream E B) (a : Action)
      → s.handler ≡ looping
      → loop_step encode capacity millis s a ≡ some t
      → is_over t.handler ≡ true
      → ((k : ℕ) × (a ≡ take_done k)) ⊎ (sent t.written ≡ sent s.written)
  unfolding loop_step take_frame_step
  loop_closed_sent s t (take_done k) q h o = inl (k, refl)
  loop_closed_sent s t (take_frame ok) q h o = inr (ground arith)
  loop_closed_sent s t (tick ok) q h o = inr (ground arith)
  loop_closed_sent s t (draining ok) q h o = inr (
      ground (
        arith,
        sent-append s.written (end ∷ []),
        append-nil s.written,
        append-nil (sent s.written),
      ))
  loop_closed_sent s t client_gone q h o = inr (ground arith)
  loop_closed_sent s t _ q h o = cc

  loop_step-InOrder :
      (s t : Stream E B) (a : Action)
      → s.handler ≡ looping
      → loop_step encode capacity millis s a ≡ some t
      → Inv encode capacity all s
      → Inv encode capacity all t
      → InOrder t
  loop_step-InOrder s t a q h v w = elim (Bool-cases (is_over t.handler)) [
    | inr running ↦ running-InOrder t running w
    | inl over ↦ elim (loop_closed_sent s t a q h over) [
      | inl (k, e) ↦ take_done-InOrder s t k q (rw e at h) v
      | inr e ↦ same-InOrder s t e (running-InOrder s (ground arith) v)
    ]
  ]

  return_step-written :
      (s t : Stream E B) (a : Action)
      → return_step encode capacity millis s a ≡ some t
      → t.written ≡ s.written
  unfolding return_step
  return_step-written s t join h = ground arith
  return_step-written s t _ h = cc

  handle-InOrder :
      (s t : Stream E B) (w : Handler) (a : Action)
      → s.handler ≡ w
      → handle encode capacity millis s w a ≡ some t
      → Inv encode capacity all s
      → Inv encode capacity all t
      → InOrder s
      → InOrder t
  unfolding handle
  handle-InOrder s t selecting a q h v w o =
      same-InOrder s t (select_step-sent s t a h) (running-InOrder s (ground arith) v)
  handle-InOrder s t looping a q h v w o = loop_step-InOrder s t a q h v w
  handle-InOrder s t closed a q h v w o = same-InOrder s t (ap sent (return_step-written s t a h)) o
  handle-InOrder s t (refused e) a q h v w o =
      same-InOrder s t (ap sent (return_step-written s t a h)) o

  step-InOrder :
      (s t : Stream E B) (a : Action)
      → step encode capacity millis s a ≡ some t
      → Inv encode capacity all s
      → Inv encode capacity all t
      → InOrder s
      → InOrder t
  unfolding step
  step-InOrder s t disconnect h v w o = same-InOrder s t (ground arith) o
  step-InOrder s t admit h v w o =
      same-InOrder s t (ap sent (produce_written s t s.producer admit h)) o
  step-InOrder s t emit h v w o =
      same-InOrder s t (ap sent (produce_written s t s.producer emit h)) o
  step-InOrder s t grace_over h v w o =
      same-InOrder s t (ap sent (produce_written s t s.producer grace_over h)) o
  step-InOrder s t finish h v w o =
      same-InOrder s t (ap sent (produce_written s t s.producer finish h)) o
  step-InOrder s t canceled h v w o =
      same-InOrder s t (ap sent (produce_written s t s.producer canceled h)) o
  step-InOrder s t a h v w o = handle-InOrder s t s.handler a refl h v w o

  pub run-InOrder :
      (s t : Stream E B) (schedule : List Action)
      → run encode capacity millis s schedule ≡ some t
      → Inv encode capacity all s
      → InOrder s
      → InOrder t
  unfolding run
  run-InOrder s t [] h v o = subst InOrder (some-injective s t h) o
  run-InOrder s t (a ∷ rest) h v o = elim (Option-cases (step encode capacity millis s a)) [
    | inl stuck ↦ let stop : none ≡ some t = rw (stuck, run) at h in cc
    | inr (u, e) ↦
        let w = step-Inv encode capacity millis all s u a e v in
        run-InOrder u t rest (rw (e, run) at h) w (step-InOrder s u a e v w o)
  ]
