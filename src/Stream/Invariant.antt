-- ===== src/Stream/Invariant.antt =====
-- What holds between any two actions of the stream's goroutines.
use mathlib.Core.List.{append_assoc, append-nil}
use mathlib.Core.Option.{some-injective}
use mathlib.Core.Path.{subst}
use anvilkit_agent_api.Base.{
  ℕ, zero, suc, ◌≤◌, ◌≡◌, ◌≢◌, refl, ap, inl, inr, Bool, true, false, Option, none, some, List, [],
  ◌∷◌, ◌++◌, map, arith, length, length-append, take, Option-cases,
}
use anvilkit_agent_api.Stream.{
  StreamError, Output, retry, event, heartbeat, reset, end, Producer, contacting, sending, stopped,
  Handler, selecting, looping, closed, Stream, Action, is_over, last_frame, early_frames, opened,
  emit_step, grace_step, finish_step, produce, select_step, take_frame_step, loop_step, return_step,
  handle, step, run, reset_required, slow_consumer, owner, refused, disconnect, admit, emit,
  grace_over, finish, canceled, take_admitted, take_early, take_frame, tick, take_done, draining,
  client_gone, join,
}

-- The durable frames among what was written.
module _ {B : Type 0} where
  abbrev pub sent : List (Output B) → List B
  sent [] = []
  sent (event b ∷ os) = b ∷ sent os
  sent (_ ∷ os) = sent os

  pub sent-append : (xs ys : List (Output B)) → sent (xs ++ ys) ≡ sent xs ++ sent ys
  sent-append [] ys = refl
  sent-append (event b ∷ xs) ys = ap (b ∷◌) (sent-append xs ys)
  sent-append (_ ∷ xs) ys = sent-append xs ys

  sent-take : (n : ℕ) (xs : List (Output B)) → sent xs ≡ [] → sent (take n xs) ≡ []
  sent-take zero xs e = refl
  sent-take (suc n) [] e = refl
  sent-take (suc n) (event b ∷ xs) e = cc
  sent-take (suc n) (retry m ∷ xs) e = sent-take n xs e
  sent-take (suc n) (heartbeat ∷ xs) e = sent-take n xs e
  sent-take (suc n) (reset c ∷ xs) e = sent-take n xs e
  sent-take (suc n) (end ∷ xs) e = sent-take n xs e

  pub take-nil : (n : ℕ) → take {A = B} n [] ≡ []
  take-nil zero = refl
  take-nil (suc n) = refl

  -- The frames of a row of writes that may stop early are a prefix of those it was to write.
  pub sent_taken :
      (k : ℕ) (bs : List B) (os : List (Output B))
      → sent os ≡ []
      → (rest : List B) × (sent (take k (map event bs ++ os)) ++ rest ≡ bs)
  sent_taken zero bs os h = (bs, refl)
  sent_taken (suc k) [] os h = ([], rw (sent-take (suc k) os h))
  sent_taken (suc k) (b ∷ bs) os h = let (rest, e) = sent_taken k bs os h in (rest, ap (b ∷◌) e)

  pub sent-last_frame :
      (e : Option StreamError) (alive : Bool) → sent (last_frame {B = B} e alive) ≡ []
  sent-last_frame none alive = refl
  sent-last_frame (some (reset_required c)) alive = refl
  sent-last_frame (some slow_consumer) alive = refl
  sent-last_frame (some (owner f)) true = refl
  sent-last_frame (some (owner f)) false = refl

  pub sent-early_frames :
      (k m : ℕ) (e : Option StreamError) → sent (take k (early_frames {B = B} m e)) ≡ []
  sent-early_frames k m none = sent-take k (early_frames m none) refl
  sent-early_frames k m (some (reset_required c)) =
      sent-take k (early_frames m (some (reset_required c))) refl
  sent-early_frames k m (some slow_consumer) = sent-take k [] refl
  sent-early_frames k m (some (owner f)) = sent-take k [] refl

-- The handler answers with an error envelope.
abbrev pub is_refused : Handler → Bool
is_refused (refused e) = true
is_refused _ = false

module _ {E B : Type 0} (encode : E → Option B) where
  -- The frames of a row of events, up to the first that cannot be encoded.
  unfoldable pub encoded : List E → List B
  encoded [] = []
  encoded (e ∷ es) = let rest = encoded es in elim (encode e) [ none ↦ [] | some b ↦ b ∷ rest ]

module _ {E B : Type 0} (encode : E → Option B) (capacity : ℕ) where
  -- `all` is what Control had to send when the stream was opened.
  pub record Inv (all : List E) (s : Stream E B) : Type 0 where
    pub kept :
        is_over s.handler ≡ false
        → sent s.written ++ (s.frames ++ encoded encode s.pending) ≡ encoded encode all
    pub bounded : length s.frames ≤ capacity
    pub contacting_idle : s.producer ≡ contacting → (s.admitted ≡ false) × (s.done ≡ none)
    pub sending_open : s.producer ≡ sending → s.done ≡ none
    pub finished : s.done ≡ some none → s.admitted ≡ true → s.pending ≡ []
    pub looping_admitted : s.handler ≡ looping → s.admitted ≡ true
    pub selecting_fresh : s.handler ≡ selecting → s.written ≡ []
    pub refused_unwritten : is_refused s.handler ≡ true → s.written ≡ []
    pub stopped_done : s.producer ≡ stopped → s.done ≢ none
    pub returned_over : s.returned ≡ true → is_over s.handler ≡ true
    pub returned_stopped : s.returned ≡ true → s.producer ≡ stopped

  pub opened-Inv : (all : List E) (e : Option StreamError) → Inv all (opened all e)
  opened-Inv all e = record {
    kept = λ h. refl;
    bounded = omega arith;
    contacting_idle = λ h. (refl, refl);
    sending_open = λ h. cc;
    finished = λ h. cc;
    looping_admitted = λ h. cc;
    selecting_fresh = λ h. refl;
    refused_unwritten = λ h. cc;
    stopped_done = λ h. cc;
    returned_over = λ h. cc;
    returned_stopped = λ h. cc;
  }

module _ {E B : Type 0} (encode : E → Option B) (capacity millis : ℕ) (all : List E) where
  emit_step-Inv :
      (s t : Stream E B) (es : List E)
      → s.pending ≡ es
      → s.producer ≡ sending
      → emit_step encode capacity millis s es ≡ some t
      → Inv encode capacity all s
      → Inv encode capacity all t
  unfolding emit_step encoded
  emit_step-Inv s t [] p q h v = cc
  emit_step-Inv s t (e ∷ es) p q h v = elim (Option-cases (encode e)) [
    | inl failed ↦ ground (arith, failed)
    | inr (b, fine) ↦ ground (
      arith,
      fine,
      length-append s.frames (b ∷ []),
      append_assoc s.frames (b ∷ []) (encoded encode es),
    )
  ]

  grace_step-Inv :
      (s t : Stream E B) (es : List E)
      → grace_step encode capacity millis s es ≡ some t
      → Inv encode capacity all s
      → Inv encode capacity all t
  unfolding grace_step
  grace_step-Inv s t [] h v = cc
  grace_step-Inv s t (e ∷ es) h v = ground arith

  finish_step-Inv :
      (s t : Stream E B) (p : Producer) (es : List E)
      → s.pending ≡ es
      → s.producer ≡ p
      → finish_step encode capacity millis s p es ≡ some t
      → Inv encode capacity all s
      → Inv encode capacity all t
  unfolding finish_step
  finish_step-Inv s t contacting es p q h v = ground arith
  finish_step-Inv s t sending [] p q h v = ground arith
  finish_step-Inv s t sending (e ∷ es) p q h v = cc
  finish_step-Inv s t stopped es p q h v = cc

  produce-Inv :
      (s t : Stream E B) (p : Producer) (a : Action)
      → s.producer ≡ p
      → produce encode capacity millis s p a ≡ some t
      → Inv encode capacity all s
      → Inv encode capacity all t
  unfolding produce
  produce-Inv s t contacting admit q h v = ground arith
  produce-Inv s t sending emit q h v = emit_step-Inv s t s.pending refl q h v
  produce-Inv s t sending grace_over q h v = grace_step-Inv s t s.pending h v
  produce-Inv s t p finish q h v = finish_step-Inv s t p s.pending refl q h v
  produce-Inv s t contacting canceled q h v = ground arith
  produce-Inv s t sending canceled q h v = ground arith
  produce-Inv s t _ _ q h v = cc

  select_step-Inv :
      (s t : Stream E B) (a : Action)
      → s.handler ≡ selecting
      → select_step encode capacity millis s a ≡ some t
      → Inv encode capacity all s
      → Inv encode capacity all t
  unfolding select_step
  select_step-Inv s t (take_admitted true) q h v =
      ground (arith, sent-append s.written (retry millis ∷ []), append-nil (sent s.written))
  select_step-Inv s t (take_admitted false) q h v = ground arith
  select_step-Inv s t (take_early k) q h v = ground (arith, take-nil {B = Output B} k)
  select_step-Inv s t (draining ok) q h v = ground arith
  select_step-Inv s t client_gone q h v = ground arith
  select_step-Inv s t _ q h v = cc

  take_frame_step-Inv :
      (s t : Stream E B) (fs : List B) (ok : Bool)
      → s.frames ≡ fs
      → s.handler ≡ looping
      → take_frame_step encode capacity millis s fs ok ≡ some t
      → Inv encode capacity all s
      → Inv encode capacity all t
  unfolding take_frame_step
  take_frame_step-Inv s t [] ok f q h v = cc
  take_frame_step-Inv s t (b ∷ fs) true f q h v = ground (
    arith,
    sent-append s.written (event b ∷ []),
    append_assoc (sent s.written) (b ∷ []) (fs ++ encoded encode s.pending),
  )
  take_frame_step-Inv s t (b ∷ fs) false f q h v = ground arith

  loop_step-Inv :
      (s t : Stream E B) (a : Action)
      → s.handler ≡ looping
      → loop_step encode capacity millis s a ≡ some t
      → Inv encode capacity all s
      → Inv encode capacity all t
  unfolding loop_step
  loop_step-Inv s t (take_frame ok) q h v = take_frame_step-Inv s t s.frames ok refl q h v
  loop_step-Inv s t (tick true) q h v =
      ground (arith, sent-append s.written (heartbeat ∷ []), append-nil (sent s.written))
  loop_step-Inv s t (tick false) q h v = ground arith
  loop_step-Inv s t (take_done k) q h v = ground arith
  loop_step-Inv s t (draining ok) q h v = ground arith
  loop_step-Inv s t client_gone q h v = ground arith
  loop_step-Inv s t _ q h v = cc

  done_stopped :
      (s : Stream E B) (p : Producer) (e : Option StreamError)
      → s.producer ≡ p
      → s.done ≡ some e
      → Inv encode capacity all s
      → s.producer ≡ stopped
  done_stopped s contacting e q d v = ground arith
  done_stopped s sending e q d v = ground arith
  done_stopped s stopped e q d v = q

  return_step-Inv :
      (s t : Stream E B) (a : Action)
      → is_over s.handler ≡ true
      → return_step encode capacity millis s a ≡ some t
      → Inv encode capacity all s
      → Inv encode capacity all t
  unfolding return_step
  return_step-Inv s t join o h v = elim (Option-cases s.done) [
    | inl waiting ↦ ground (arith, waiting)
    | inr (e, ended) ↦ ground (arith, ended, done_stopped s s.producer e refl ended v)
  ]
  return_step-Inv s t _ o h v = cc

  handle-Inv :
      (s t : Stream E B) (w : Handler) (a : Action)
      → s.handler ≡ w
      → handle encode capacity millis s w a ≡ some t
      → Inv encode capacity all s
      → Inv encode capacity all t
  unfolding handle
  handle-Inv s t selecting a q h v = select_step-Inv s t a q h v
  handle-Inv s t looping a q h v = loop_step-Inv s t a q h v
  handle-Inv s t closed a q h v = return_step-Inv s t a (ap is_over q) h v
  handle-Inv s t (refused e) a q h v = return_step-Inv s t a (ap is_over q) h v

  -- Every action of either goroutine keeps the invariant.
  pub step-Inv :
      (s t : Stream E B) (a : Action)
      → step encode capacity millis s a ≡ some t
      → Inv encode capacity all s
      → Inv encode capacity all t
  unfolding step
  step-Inv s t disconnect h v = ground arith
  step-Inv s t admit h v = produce-Inv s t s.producer admit refl h v
  step-Inv s t emit h v = produce-Inv s t s.producer emit refl h v
  step-Inv s t grace_over h v = produce-Inv s t s.producer grace_over refl h v
  step-Inv s t finish h v = produce-Inv s t s.producer finish refl h v
  step-Inv s t canceled h v = produce-Inv s t s.producer canceled refl h v
  step-Inv s t a h v = handle-Inv s t s.handler a refl h v

  pub run-Inv :
      (s t : Stream E B) (schedule : List Action)
      → run encode capacity millis s schedule ≡ some t
      → Inv encode capacity all s
      → Inv encode capacity all t
  unfolding run
  run-Inv s t [] h v = subst (Inv encode capacity all) (some-injective s t h) v
  run-Inv s t (a ∷ rest) h v = elim (Option-cases (step encode capacity millis s a)) [
    | inl stuck ↦ let stop : none ≡ some t = rw (stuck, run) at h in cc
    | inr (u, e) ↦ run-Inv u t rest (rw (e, run) at h) (step-Inv s u a e v)
  ]
