-- ===== src/Stream/Race.antt =====
-- The first select of the handler when admission and the producer's end are both ready.
use mathlib.Core.List.{append_assoc, append-nil}
use anvilkit_agent_api.Base.{
  ℕ, suc, ◌+◌, ◌≤◌, ◌≡◌, refl, sym, ap, ◌∙◌, true, false, Option, none, some, List, [], ◌∷◌, ◌++◌,
  arith, length, length-append, All,
}
use anvilkit_agent_api.Stream.{
  retry, sending, stopped, selecting, closed, Stream, Action, opened, emit_step, produce,
  select_step, handle, step, run, admit, emit, finish, take_early,
}
use anvilkit_agent_api.Stream.Invariant.{encoded}

module _ {E B : Type 0} (encode : E → Option B) (capacity millis : ℕ) where
  abbrev pub Encodes : E → Type 0
  Encodes e = (b : B) × (encode e ≡ some b)

  -- Control admitted the stream and the handler has not yet looked.
  abbrev unseen : List B → List E → Stream E B
  unseen held pending = record {
    pending = pending;
    ending = none;
    producer = sending;
    frames = held;
    done = none;
    admitted = true;
    handler = selecting;
    gone = false;
    returned = false;
    written = [];
  }

  emits : List E → List Action → List Action
  emits [] rest = rest
  emits (e ∷ es) rest = emit ∷ emits es rest

  emit_one :
      (e : E) (es : List E) (b : B) (held : List B)
      → encode e ≡ some b
      → suc (length held) ≤ capacity
      → step encode capacity millis (unseen held (e ∷ es)) emit ≡ some (unseen (held ++ b ∷ []) es)
  unfolding step produce emit_step
  emit_one e es b held p h = ground (arith, p)

  encoded-cons :
      (e : E) (es : List E) (b : B)
      → encode e ≡ some b
      → encoded encode (e ∷ es) ≡ b ∷ encoded encode es
  unfolding encoded
  encoded-cons e es b p = rw (p, encoded)

  run-emits :
      (es : List E) (held : List B) (rest : List Action)
      → All Encodes es
      → length held + length es ≤ capacity
      → run encode capacity millis (unseen held es) (emits es rest)
        ≡ run encode capacity millis (unseen (held ++ encoded encode es) []) rest
  unfolding run emits encoded
  run-emits [] held rest c h =
      ap (λ l. run encode capacity millis (unseen l []) rest) (sym (append-nil held))
  run-emits (e ∷ es) held rest ((b, p), c) h =
      rw (emit_one e es b held p (omega arith), run)
        (run-emits es (held ++ b ∷ []) rest c (omega (arith, length-append held (b ∷ [])))
          ∙ ap (λ l. run encode capacity millis (unseen l []) rest)
              (append_assoc held (b ∷ []) (encoded encode es)
                ∙ ap (λ l. held ++ l) (sym (encoded-cons e es b p))))

  -- Where Control admits a stream, sends a backlog that fits the buffer and ends without error, there
  -- is a schedule under which the response ends complete, the client still connected, with none of
  -- the backlog's frames written: all of them are left in the buffer.
  pub early_end_loses :
      (es : List E)
      → All Encodes es
      → length es ≤ capacity
      → (schedule : List Action) × (t : Stream E B) × (run encode capacity millis
            (opened es none)
            schedule
          ≡ some t)
        × (t.handler ≡ closed)
        × (t.gone ≡ false)
        × (t.written ≡ retry millis ∷ [])
        × (t.frames ≡ encoded encode es)
        × (t.done ≡ some none)
  unfolding run step produce handle select_step
  early_end_loses es c h = (
    admit ∷ emits es (finish ∷ take_early 1 ∷ []),
    record (unseen (encoded encode es) []) {
      producer = stopped;
      done = some none;
      handler = closed;
      written = retry millis ∷ [];
    },
    run-emits es [] (finish ∷ take_early 1 ∷ []) c (omega arith),
    refl,
    refl,
    refl,
    refl,
    refl,
  )
