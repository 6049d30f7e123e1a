-- ===== src/Stream/Reset.antt =====
-- A stream that StreamEvents ends before it is admitted: the cursor's reset above all.
use mathlib.Core.Path.{subst}
use anvilkit_agent_api.Base.{
  ℕ, zero, suc, String, ◌≡◌, refl, ap, ◌⊎◌, inl, inr, true, false, Option, none, some, List, [],
  ◌∷◌, ◌++◌, take, Bool-cases, Option-cases, ◌||◌, arith,
}
use anvilkit_agent_api.Base.Results.{ok}
use anvilkit_agent_api.Errors.{Failure}
use anvilkit_agent_api.Access.{Principal}
use anvilkit_agent_api.Control.Client.{scope}
use anvilkit_agent_api.Stream.{
  StreamError, reset_required, slow_consumer, owner, Output, retry, reset, Producer, contacting,
  sending, stopped, Handler, selecting, looping, closed, Stream, Action, disconnect, admit, emit,
  grace_over, finish, canceled, take_admitted, take_early, take_frame, tick, take_done, draining,
  client_gone, join, return_step, shutting_down, early_frames, early_handler, is_over, opened,
  produce, select_step, handle, step,
}
use anvilkit_agent_api.Stream
use anvilkit_agent_api.Stream.Invariant.{take-nil}
use anvilkit_agent_api.Stream.Source.{
  EventFrame, EventStubs, Page, refused, stream_events, follows, opened_on, step_on, run_on,
}

take_rest : {A : Type 0} (k : ℕ) (xs : List A) → (rest : List A) × (take k xs ++ rest ≡ xs)
take_rest zero xs = (xs, refl)
take_rest (suc k) [] = ([], refl)
take_rest (suc k) (x ∷ xs) = let (rest, e) = take_rest k xs in (rest, ap (x ∷◌) e)

module _ {B : Type 0} (encode : EventFrame → Option B) (capacity millis : ℕ)
    (e : Option StreamError) where
  abbrev Foretold : List (Output B) → Type 0
  Foretold w = (rest : List (Output B)) × (w ++ rest ≡ early_frames millis e)

  -- What the handler has written, once it has returned and before.
  abbrev Kept : Handler → List (Output B) → Type 0
  Kept selecting w = w ≡ []
  Kept looping w = ⊥
  Kept closed w = Foretold w
  Kept (Stream.refused a) w = Foretold w

  abbrev IsEnding : Option (Option StreamError) → Type 0
  IsEnding none = Unit
  IsEnding (some d) = (d ≡ e) ⊎ (d ≡ some (owner Failure.other))

  abbrev IsQuiet : Producer → Type 0
  IsQuiet sending = ⊥
  IsQuiet _ = Unit

  -- Nothing was admitted or sent.
  record IsUnadmitted (s : Stream EventFrame B) : Type 0 where
    pub ending : s.ending ≡ e
    pub admitted : s.admitted ≡ false
    pub done : IsEnding s.done
    pub producer : IsQuiet s.producer
    pub kept : Kept s.handler s.written

  carried_over : (s t : Stream EventFrame B) → some s ≡ some t → IsUnadmitted s → IsUnadmitted t
  carried_over s t h v = let same : s ≡ t = cc in subst IsUnadmitted same v

  produce-IsUnadmitted :
      (s t : Stream EventFrame B) (p : Producer) (a : Action)
      → s.producer ≡ p
      → follows (refused e) p a ≡ true
      → produce encode capacity millis s p a ≡ some t
      → IsUnadmitted s
      → IsUnadmitted t
  unfolding produce
  produce-IsUnadmitted s t contacting finish own f h v = carried_over _ t h (record {
    ending = v.ending;
    admitted = v.admitted;
    done = inl v.ending;
    producer = tt;
    kept = v.kept;
  })
  produce-IsUnadmitted s t contacting canceled own f h v =
      elim (Bool-cases (s.gone || is_over s.handler)) [
        | inl over ↦ carried_over _ t (rw over at h) (record {
          ending = v.ending;
          admitted = v.admitted;
          done = inr refl;
          producer = tt;
          kept = v.kept;
        })
        | inr open_ ↦
            let stop : ◌≡◌ {A = Option (Stream EventFrame B)} none (some t) = rw open_ at h in cc
      ]
  produce-IsUnadmitted s t sending a own f h v =
      let stop : IsQuiet sending = rw own at v.producer in absurd stop
  produce-IsUnadmitted s t contacting admit own f h v = cc
  produce-IsUnadmitted s t p a own f h v = ground arith

  early-Kept :
      (d : Option StreamError) (w : List (Output B)) → Foretold w → Kept (early_handler d) w
  early-Kept none w early = early
  early-Kept (some (reset_required covered)) w early = early
  early-Kept (some slow_consumer) w early = early
  early-Kept (some (owner f)) w early = early

  -- The frames of an end that is the feed's, or that came with the client's disconnection.
  early_written :
      (d : Option StreamError) (k : ℕ)
      → (d ≡ e) ⊎ (d ≡ some (owner Failure.other))
      → Foretold (take k (early_frames millis d))
  early_written d k (inl own) = rw own (take_rest k (early_frames millis e))
  early_written d k (inr gone) = rw (gone, take-nil k) (early_frames millis e, refl)

  select-IsUnadmitted :
      (s t : Stream EventFrame B) (a : Action)
      → s.handler ≡ selecting
      → select_step encode capacity millis s a ≡ some t
      → IsUnadmitted s
      → IsUnadmitted t
  unfolding select_step
  select-IsUnadmitted s t (take_admitted well) own h v =
      let stop : ◌≡◌ {A = Option (Stream EventFrame B)} none (some t) = rw v.admitted at h in cc
  select-IsUnadmitted s t (take_early k) own h v = elim (Option-cases s.done) [
    | inl none_yet ↦
        let stop : ◌≡◌ {A = Option (Stream EventFrame B)} none (some t) = rw none_yet at h in cc
    | inr (d, ended) ↦
        let fresh : s.written ≡ [] = rw own at v.kept in
        let which : (d ≡ e) ⊎ (d ≡ some (owner Failure.other)) = rw ended at v.done in
        carried_over _ t (rw ended at h) (record {
          ending = v.ending;
          admitted = v.admitted;
          done = which;
          producer = v.producer;
          kept = early-Kept d _ (rw fresh (early_written d k which));
        })
  ]
  select-IsUnadmitted s t (draining well) own h v =
      let fresh : s.written ≡ [] = rw own at v.kept in
      carried_over _ t h (record {
        ending = v.ending;
        admitted = v.admitted;
        done = v.done;
        producer = v.producer;
        kept = rw fresh (early_frames millis e, refl);
      })
  select-IsUnadmitted s t client_gone own h v = elim (Bool-cases s.gone) [
    | inl gone ↦
        let fresh : s.written ≡ [] = rw own at v.kept in
        carried_over _ t (rw gone at h) (record {
          ending = v.ending;
          admitted = v.admitted;
          done = v.done;
          producer = v.producer;
          kept = rw fresh (early_frames millis e, refl);
        })
    | inr here ↦
        let stop : ◌≡◌ {A = Option (Stream EventFrame B)} none (some t) = rw here at h in cc
  ]
  select-IsUnadmitted s t _ own h v = cc

  return-IsUnadmitted :
      (s t : Stream EventFrame B) (a : Action)
      → return_step encode capacity millis s a ≡ some t
      → IsUnadmitted s
      → IsUnadmitted t
  unfolding return_step
  return-IsUnadmitted s t join h v = elim (Option-cases s.done) [
    | inl waiting ↦ ground (arith, waiting)
    | inr (d, ended) ↦ elim (Bool-cases s.returned) [
      | inl before ↦
          let stop : ◌≡◌ {A = Option (Stream EventFrame B)} none (some t) = rw before at h in cc
      | inr now ↦
          let own : some (record s { returned = true }) ≡ some t = rw (now, ended) at h in
          carried_over _ t own (record {
            ending = v.ending;
            admitted = v.admitted;
            done = v.done;
            producer = v.producer;
            kept = v.kept;
          })
    ]
  ]
  return-IsUnadmitted s t _ h v = cc

  handle-IsUnadmitted :
      (s t : Stream EventFrame B) (hd : Handler) (a : Action)
      → s.handler ≡ hd
      → handle encode capacity millis s hd a ≡ some t
      → IsUnadmitted s
      → IsUnadmitted t
  unfolding handle
  handle-IsUnadmitted s t selecting a own h v = select-IsUnadmitted s t a own h v
  handle-IsUnadmitted s t looping a own h v =
      let stop : Kept looping s.written = rw own at v.kept in absurd stop
  handle-IsUnadmitted s t closed a own h v = return-IsUnadmitted s t a h v
  handle-IsUnadmitted s t (Stream.refused b) a own h v = return-IsUnadmitted s t a h v

  step_on-IsUnadmitted :
      (s t : Stream EventFrame B) (a : Action)
      → step_on encode capacity millis (refused e) s a ≡ some t
      → IsUnadmitted s
      → IsUnadmitted t
  unfolding step_on
  step_on-IsUnadmitted s t disconnect h v = carried_over _ t h (record {
    ending = v.ending;
    admitted = v.admitted;
    done = v.done;
    producer = v.producer;
    kept = v.kept;
  })
  step_on-IsUnadmitted s t admit h v = cc
  step_on-IsUnadmitted s t emit h v = produce-IsUnadmitted s t s.producer emit refl refl h v
  step_on-IsUnadmitted s t grace_over h v =
      produce-IsUnadmitted s t s.producer grace_over refl refl h v
  step_on-IsUnadmitted s t finish h v = produce-IsUnadmitted s t s.producer finish refl refl h v
  step_on-IsUnadmitted s t canceled h v = produce-IsUnadmitted s t s.producer canceled refl refl h v
  step_on-IsUnadmitted s t (take_admitted well) h v =
      handle-IsUnadmitted s t s.handler (take_admitted well) refl h v
  step_on-IsUnadmitted s t (take_early k) h v =
      handle-IsUnadmitted s t s.handler (take_early k) refl h v
  step_on-IsUnadmitted s t (take_frame well) h v =
      handle-IsUnadmitted s t s.handler (take_frame well) refl h v
  step_on-IsUnadmitted s t (tick well) h v = handle-IsUnadmitted s t s.handler (tick well) refl h v
  step_on-IsUnadmitted s t (take_done k) h v =
      handle-IsUnadmitted s t s.handler (take_done k) refl h v
  step_on-IsUnadmitted s t (draining well) h v =
      handle-IsUnadmitted s t s.handler (draining well) refl h v
  step_on-IsUnadmitted s t client_gone h v = handle-IsUnadmitted s t s.handler client_gone refl h v
  step_on-IsUnadmitted s t join h v = handle-IsUnadmitted s t s.handler join refl h v

  run_on-IsUnadmitted :
      (s t : Stream EventFrame B) (schedule : List Action)
      → run_on encode capacity millis (refused e) s schedule ≡ some t
      → IsUnadmitted s
      → IsUnadmitted t
  unfolding run_on
  run_on-IsUnadmitted s t [] h v = carried_over s t h v
  run_on-IsUnadmitted s t (a ∷ rest) h v =
      elim (Option-cases (step_on encode capacity millis (refused e) s a)) [
        | inl stuck ↦
            let stop : ◌≡◌ {A = Option (Stream EventFrame B)} none (some t) =
              rw (stuck, run_on) at h in
            cc
        | inr (u, stepped) ↦
            run_on-IsUnadmitted u t rest (rw (stepped, run_on) at h)
              (step_on-IsUnadmitted s u a stepped v)
      ]

  unadmitted_written :
      (s : Stream EventFrame B) (hd : Handler)
      → s.handler ≡ hd
      → IsUnadmitted s
      → Foretold s.written
  unadmitted_written s selecting own v =
      let fresh : s.written ≡ [] = rw own at v.kept in rw fresh (early_frames millis e, refl)
  unadmitted_written s looping own v =
      let stop : Kept looping s.written = rw own at v.kept in absurd stop
  unadmitted_written s closed own v = rw own at v.kept
  unadmitted_written s (Stream.refused b) own v = rw own at v.kept

-- Where Control's page of the cursor asks for a reset, no schedule writes an event of the stream: what
-- is written is a prefix of the retry frame and the reset frame with the page's covered sequence.
pub reset_not_silent :
    {B : Type 0} (encode : EventFrame → Option B) (capacity millis : ℕ) (stubs : EventStubs)
    (p : Principal) (operation_id after_seq : String) (page : Page) (schedule : List Action)
    (t : Stream EventFrame B)
    → stubs.list_operation_events (record {
      scope = scope p;
      operation_id = operation_id;
      after_event_seq = after_seq;
      limit = 1;
    })
      ≡ ok page
    → page.reset_required ≡ true
    → let feed = stream_events stubs p operation_id after_seq in
      run_on encode capacity millis feed (opened_on encode capacity millis feed) schedule ≡ some t
      → (rest : List (Output B)) × (t.written ++ rest
          ≡ retry millis ∷ reset page.covered_event_seq ∷ [])
unfolding stream_events opened_on
reset_not_silent encode capacity millis stubs p operation_id after_seq page schedule t listed
      expired h =
    let e : Option StreamError = some (reset_required page.covered_event_seq) in
    let run : run_on encode capacity millis (refused e) (opened [] e) schedule ≡ some t =
      rw (listed, expired) at h in
    unadmitted_written encode capacity millis e t t.handler refl (
      run_on-IsUnadmitted encode capacity millis e (opened [] e) t schedule run
        (record { ending = refl; admitted = refl; done = tt; producer = tt; kept = refl }))
