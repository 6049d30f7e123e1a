-- ===== src/Stream/Payload.antt =====
-- The document of an event's frame (internal/transport/http/sse.go: encodeFrame, encodeReset, encodeEnd,
-- omitEmpty), as the members of its JSON object; json.Marshal and gin-contrib/sse, which write it, and
-- the format of a time are parameters.
use text.Mathlib.Text.{◌==◌ as str_eq}
use text.Mathlib.TextEquality.{eq_iff}
use anvilkit_agent_api.Base.{
  ℕ, String, ◌≡◌, refl, sym, ap, ◌∙◌, inl, inr, Option, none, some, List, [], ◌∷◌, Bool-cases,
  arith, ◌>>=◌, if◌then◌else◌,
}
use anvilkit_agent_api.Base.Text.{is_empty}
use anvilkit_agent_api.Base.Int.{ℤ}
use anvilkit_agent_api.Base.Dict.{lookup}
use anvilkit_agent_api.Control.{deref}
use anvilkit_agent_api.Stream.Source.{EventFrame}

pub data Member : Type 0 where
  word : String → Member
  object : List (String × String) → Member

abbrev pub Document : Type 0
Document = List (String × Member)

-- sse.Event: the durable sequence as its id, and the marshalled document.
pub record SseEvent : Type 0 where
  pub id : String
  pub event : String
  pub content : List ℕ

unfoldable pub omit_empty : List (String × String) → List (String × String)
omit_empty [] = []
omit_empty ((name, value) ∷ rest) =
    let kept = omit_empty rest in if is_empty value then kept else (name, value) ∷ kept

abbrev pub payload_of : EventFrame → List (String × String)
payload_of f =
    ("lifecycle", f.lifecycle)
    ∷ ("phase", f.phase)
    ∷ ("control", f.control)
    ∷ ("cleanup", f.cleanup)
    ∷ ("finance", f.finance)
    ∷ ("failureCode", f.failure_code)
    ∷ ("step", f.step)
    ∷ ("visit", f.visit)
    ∷ ("attemptOrdinal", f.attempt_ordinal)
    ∷ ("verdict", f.verdict)
    ∷ ("verdictCode", f.verdict_code)
    ∷ ("node", f.node)
    ∷ ("nodeState", f.node_state)
    ∷ ("round", f.round)
    ∷ ("outcomeCode", f.outcome_code)
    ∷ []

unfoldable pub frame_document : (ℤ → String) → EventFrame → Document
unfolding omit_empty
frame_document format f =
    ("operationId", word f.operation_id)
    ∷ ("eventSeq", word f.event_seq)
    ∷ ("transitionId", word f.transition_id)
    ∷ ("eventType", word f.event_type)
    ∷ ("revision", word f.revision)
    ∷ ("occurredAt", word (format f.occurred_at))
    ∷ ("payload", object (omit_empty (payload_of f)))
    ∷ []

pub record Encoder : Type 0 where
  pub format : ℤ → String
  pub marshal : Document → Option (List ℕ)
  pub encode : SseEvent → Option (List ℕ)

unfoldable pub encode_frame : Encoder → EventFrame → Option (List ℕ)
unfolding frame_document
encode_frame go f = go.marshal (frame_document go.format f) >>= λ content.
    go.encode (record { id = f.event_seq; event = f.event_type; content = content })

-- encodeReset and encodeEnd: an event without an id.
unfoldable pub encode_bare : Encoder → String → Document → Option (List ℕ)
encode_bare go event document = go.marshal document >>= λ content.
    go.encode (record { id = ""; event = event; content = content })

unfoldable pub encode_reset : Encoder → String → String → Option (List ℕ)
unfolding encode_bare
encode_reset go operation_id covered =
    encode_bare go "reset_required"
      (("operationId", word operation_id) ∷ ("coveredEventSeq", word covered) ∷ [])

unfoldable pub encode_end : Encoder → String → String → Option (List ℕ)
unfolding encode_bare
encode_end go operation_id reason =
    encode_bare go "end" (("operationId", word operation_id) ∷ ("reason", word reason) ∷ [])

-- No name stands twice.
abbrev AreApart : List (String × String) → Type 0
AreApart [] = Unit
AreApart ((name, value) ∷ rest) = (lookup name rest ≡ none) × AreApart rest

-- A member that is absent reads as the empty text.
abbrev word_at : String → List (String × String) → String
word_at name m = deref (lookup name m)

word_at-omit_empty :
    (key : String) (m : List (String × String))
    → AreApart m
    → word_at key (omit_empty m) ≡ word_at key m
unfolding omit_empty lookup deref
word_at-omit_empty key [] apart = refl
word_at-omit_empty key ((name, value) ∷ rest) (fresh, apart) = elim (Bool-cases (is_empty value)) [
  | inl empty ↦ elim (Bool-cases (str_eq name key)) [
    | inl same ↦
        let e : name ≡ key = (eq_iff name key).0 same in
        let nothing : value ≡ "" = (eq_iff value "").0 empty in
        let unlisted : lookup key rest ≡ none = rw e at fresh in
        rw (empty, same) (word_at-omit_empty key rest apart ∙ ap deref unlisted ∙ sym nothing)
    | inr other ↦ rw (empty, other) (word_at-omit_empty key rest apart)
  ]
  | inr full ↦ elim (Bool-cases (str_eq name key)) [
    | inl same ↦ rw (full, same) refl
    | inr other ↦ rw (full, other) (word_at-omit_empty key rest apart)
  ]
]

abbrev pub word_of : Option Member → String
word_of (some (word s)) = s
word_of _ = ""

abbrev object_of : Option Member → List (String × String)
object_of (some (object m)) = m
object_of _ = []

-- The client's reading of a document, its time apart: a member that is absent is the empty text.
unfoldable pub read_frame : ℤ → Document → EventFrame
unfolding deref lookup
read_frame occurred_at d =
    let payload = object_of (lookup "payload" d) in
    record {
      operation_id = word_of (lookup "operationId" d);
      event_seq = word_of (lookup "eventSeq" d);
      transition_id = word_of (lookup "transitionId" d);
      event_type = word_of (lookup "eventType" d);
      revision = word_of (lookup "revision" d);
      occurred_at = occurred_at;
      lifecycle = word_at "lifecycle" payload;
      phase = word_at "phase" payload;
      control = word_at "control" payload;
      cleanup = word_at "cleanup" payload;
      finance = word_at "finance" payload;
      failure_code = word_at "failureCode" payload;
      step = word_at "step" payload;
      visit = word_at "visit" payload;
      attempt_ordinal = word_at "attemptOrdinal" payload;
      verdict = word_at "verdict" payload;
      verdict_code = word_at "verdictCode" payload;
      node = word_at "node" payload;
      node_state = word_at "nodeState" payload;
      round = word_at "round" payload;
      outcome_code = word_at "outcomeCode" payload;
    }

payload_of-AreApart : (f : EventFrame) → AreApart (payload_of f)
unfolding lookup
payload_of-AreApart f = ground arith

-- The document of a frame leaves nothing out and mixes nothing up: with each absent member of its
-- payload read as the empty text, and its time by the clock that wrote it, it is the frame.
pub read_frame-frame_document :
    (parse : String → ℤ) (format : ℤ → String) (f : EventFrame)
    → parse (format f.occurred_at) ≡ f.occurred_at
    → read_frame
        (parse (word_of (lookup "occurredAt" (frame_document format f))))
        (frame_document format f)
      ≡ f
unfolding frame_document read_frame lookup deref
read_frame-frame_document parse format f time =
    let same = λ (key : String). word_at-omit_empty key (payload_of f) (payload_of-AreApart f) in
    λ i. record {
      operation_id = f.operation_id;
      event_seq = f.event_seq;
      transition_id = f.transition_id;
      event_type = f.event_type;
      revision = f.revision;
      occurred_at = time i;
      lifecycle = same "lifecycle" i;
      phase = same "phase" i;
      control = same "control" i;
      cleanup = same "cleanup" i;
      finance = same "finance" i;
      failure_code = same "failureCode" i;
      step = same "step" i;
      visit = same "visit" i;
      attempt_ordinal = same "attemptOrdinal" i;
      verdict = same "verdict" i;
      verdict_code = same "verdictCode" i;
      node = same "node" i;
      node_state = same "nodeState" i;
      round = same "round" i;
      outcome_code = same "outcomeCode" i;
    }
