-- ===== src/Stream/Opening.antt =====
-- What a stream request passes before its goroutines start (internal/transport/http/sse.go): the
-- cursor, Control's answer on the operation, and a place in the limiter; and the reconnect interval.
use Prim.Native.Char.{Char, code}
use Prim.Native.String.{String}
use Prim.Native.String
use Prim.Native.Nat.{◌/◌}
use anvilkit_agent_api.Base.{
  ℕ, zero, suc, ◌+◌, ◌≤◌, ◌<◌, ◌≡◌, refl, sym, ap, ◌∙◌, ◌⊎◌, inl, inr, Bool, true, false, not, ◌&&◌,
  ◌||◌, Option, none, some, leb, ◌==◌, if◌then◌else◌, arith, Bool-cases, Option-cases,
}
use anvilkit_agent_api.Base.Text.{is_empty}
use anvilkit_agent_api.Base.Int.{ℤ, pos, negsuc}
use anvilkit_agent_api.Errors.{ApiError, Failure, invalid_field, from_control}
use anvilkit_agent_api.Limiter.{StreamLimiter, acquire}

abbrev is_digit : Char → Bool
is_digit c = leb b'0' (code c) && leb (code c) b'9'

-- `[0-9]{0,n}$`
unfoldable pub digits : ℕ → String → Bool
digits n String.[] = true
digits zero (String.◌∷◌ c s) = false
digits (suc n) (String.◌∷◌ c s) = is_digit c && digits n s

-- `sequencePattern`: a decimal of at most 20 digits, without leading zeros.
unfoldable pub is_sequence : String → Bool
is_sequence String.[] = false
is_sequence (String.◌∷◌ c s) =
    (code c == b'0' && is_empty s) || (is_digit c && not (code c == b'0') && digits 19 s)

abbrev pub is_cursor : String → Bool
is_cursor s = is_empty s || is_sequence s

-- What a step of the request comes to.
pub data Step (A : Type 0) : Type 0 where
  refused : ApiError → Step A
  passed : A → Step A

-- A struct that Gin binds: each field from the parameter that its tag names, or, where the binding
-- at hand has no tag on the field, from the one of the field's own name.
pub record StreamCursor : Type 0 where
  pub after : String
  pub last_event_id : String

-- What the request names: `after` and `LastEventID` of the query, `After` and `Last-Event-ID` of the
-- header, each where it is there.
pub record Named : Type 0 where
  pub query_after : Option String
  pub query_last_event_id : Option String
  pub header_after : Option String
  pub header_last_event_id : Option String

-- A field that is not there keeps its value.
abbrev bound : String → Option String → String
bound old none = old
bound old (some s) = s

abbrev pub by_query : Named → StreamCursor
by_query n = record {
  after = bound "" n.query_after;
  last_event_id = bound "" n.query_last_event_id;
}

abbrev pub by_header : Named → StreamCursor → StreamCursor
by_header n cur = record {
  after = bound cur.after n.header_after;
  last_event_id = bound cur.last_event_id n.header_last_event_id;
}

-- The validation after each binding, over all the fields.
abbrev pub is_valid : StreamCursor → Bool
is_valid cur = is_cursor cur.after && is_cursor cur.last_event_id

-- The cursor of the fields.
abbrev pub chosen : StreamCursor → String
chosen cur = if is_empty cur.after then cur.last_event_id else cur.after

unfoldable pub bind_cursor : Named → Step String
bind_cursor n =
    if not (is_valid (by_query n))
    then refused (invalid_field "after must be a canonical sequence" "after")
    else if not (is_valid (by_header n (by_query n)))
    then refused (invalid_field "Last-Event-ID must be a canonical sequence" "Last-Event-ID")
    else passed (chosen (by_header n (by_query n)))

abbrev pub too_many_streams : ApiError
too_many_streams = record {
  status = 429;
  code = "CAPACITY_EXHAUSTED";
  message = "too many open event streams";
  retryable = true;
  field = "";
}

abbrev admitted : String → StreamLimiter × Bool → StreamLimiter × Step String
admitted cursor (l, true) = (l, passed cursor)
admitted cursor (l, false) = (l, refused too_many_streams)

abbrev limited : StreamLimiter → String → String → Option Failure → StreamLimiter × Step String
limited l subject cursor (some e) = (l, refused (from_control e))
limited l subject cursor none = admitted cursor (acquire l subject)

abbrev after_cursor :
    StreamLimiter → String → Option Failure → Step String → StreamLimiter × Step String
after_cursor l subject answer (refused e) = (l, refused e)
after_cursor l subject answer (passed cursor) = limited l subject cursor answer

abbrev pub subject_of : String → String → String
subject_of tenant actor = String.◌++◌ tenant (String.◌++◌ "/" actor)

-- The request up to the goroutines: `answer` is Control's refusal of GetOperation, if any.
unfoldable pub open_stream :
    StreamLimiter → String → String → Named → Option Failure → StreamLimiter × Step String
open_stream l tenant actor n answer =
    after_cursor l (subject_of tenant actor) answer (bind_cursor n)

-- The interval in nanoseconds to advertise, with the random jitter below half of it plus one.
abbrev base_of : ℤ → ℕ
base_of (pos zero) = 3000000000
base_of (pos (suc n)) = suc n
base_of (negsuc n) = 3000000000

unfoldable pub retry_millis : ℤ → ℕ → ℕ
retry_millis base jitter = (base_of base + jitter) / 1000000

abbrev pub or_else : Option String → String → String
or_else none d = d
or_else (some s) d = s

-- The parameters by their precedence: the header's `After`, the query's `after`, then the header's
-- `Last-Event-ID` and the query's `LastEventID`. An empty one of the header still hides the query's.
abbrev pub preferred : Named → String
preferred n =
    let first = or_else n.header_after (or_else n.query_after "") in
    if is_empty first
    then or_else n.header_last_event_id (or_else n.query_last_event_id "")
    else first

or_else-bound : (s d : Option String) → bound (bound "" d) s ≡ or_else s (or_else d "")
or_else-bound none none = refl
or_else-bound none (some d) = refl
or_else-bound (some s) d = refl

chosen-preferred : (n : Named) → chosen (by_header n (by_query n)) ≡ preferred n
chosen-preferred n = rw (
  or_else-bound n.header_after n.query_after,
  or_else-bound n.header_last_event_id n.query_last_event_id,
)

chosen_valid : (cur : StreamCursor) → is_valid cur ≡ true → is_cursor (chosen cur) ≡ true
chosen_valid cur h = ground arith

bind_cursor-passed :
    (n : Named) (cursor : String)
    → bind_cursor n ≡ passed cursor
    → (is_cursor cursor ≡ true) × (cursor ≡ preferred n)
unfolding bind_cursor
bind_cursor-passed n cursor h = elim (Bool-cases (is_valid (by_query n))) [
  | inr bad ↦
      let stop : refused (invalid_field "after must be a canonical sequence" "after")
          ≡ passed cursor =
        rw (bad, bind_cursor) at h in
      cc
  | inl good ↦ elim (Bool-cases (is_valid (by_header n (by_query n)))) [
    | inr bad ↦
        let stop : refused
              (invalid_field "Last-Event-ID must be a canonical sequence" "Last-Event-ID")
            ≡ passed cursor =
          rw (good, bad, bind_cursor) at h in
        cc
    | inl also ↦
        let same : passed (chosen (by_header n (by_query n))) ≡ passed cursor =
          rw (good, also, bind_cursor) at h in
        let e : chosen (by_header n (by_query n)) ≡ cursor = cc in
        (
          ap is_cursor (sym e) ∙ chosen_valid (by_header n (by_query n)) also,
          sym e ∙ chosen-preferred n,
        )
  ]
]

Step-cases :
    {A : Type 0} (r : Step A) → ((e : ApiError) × (r ≡ refused e)) ⊎ ((a : A) × (r ≡ passed a))
Step-cases (refused e) = inl (e, refl)
Step-cases (passed a) = inr (a, refl)

-- A stream that opens has the cursor that the request prefers, the header's `After`, then the query's
-- `after`, where that is not empty, and else the header's `Last-Event-ID`, then the query's
-- `LastEventID`; it is empty or canonical. Control let the caller read the operation, and the limiter
-- admitted the stream.
pub open_stream-passed :
    (l : StreamLimiter) (tenant actor : String) (n : Named) (answer : Option Failure)
    (cursor : String)
    → (open_stream l tenant actor n answer).1 ≡ passed cursor
    → (is_cursor cursor ≡ true)
      × (cursor ≡ preferred n)
      × (answer ≡ none)
      × ((open_stream l tenant actor n answer).0 ≡ (acquire l (subject_of tenant actor)).0)
      × ((acquire l (subject_of tenant actor)).1 ≡ true)
unfolding open_stream
open_stream-passed l tenant actor n answer cursor h = elim (Step-cases (bind_cursor n)) [
  | inl (e, bad) ↦ let stop : refused e ≡ passed cursor = rw (bad, open_stream) at h in cc
  | inr (c, read) ↦ elim (Option-cases answer) [
    | inr (f, refusal) ↦
        let stop : refused (from_control f) ≡ passed cursor =
          rw (read, refusal, open_stream) at h in
        cc
    | inl authorized ↦ elim (Bool-cases (acquire l (subject_of tenant actor)).1) [
      | inr full ↦
          let stop : refused too_many_streams ≡ passed cursor =
            rw (read, authorized, full, open_stream) at h in
          cc
      | inl held ↦
          let same : passed c ≡ passed cursor = rw (read, authorized, held, open_stream) at h in
          let e : c ≡ cursor = cc in
          let (canonical, first) = bind_cursor-passed n cursor (read ∙ same) in
          (canonical, first, authorized, rw (read, authorized, held, open_stream) refl, held)
    ]
  ]
]

-- With a base above 0 and the jitter drawn, the interval advertised lies between the base and one
-- and a half times it, in whole milliseconds.
pub retry_millis_bounded :
    (base jitter : ℕ)
    → 0 < base
    → jitter < base / 2 + 1
    → (base / 1000000 ≤ retry_millis (pos base) jitter)
      × (retry_millis (pos base) jitter ≤ (base + base / 2) / 1000000)
unfolding retry_millis
retry_millis_bounded zero jitter h j = absurd (omega (arith, h))
retry_millis_bounded (suc n) jitter h j = (omega (arith, j), omega (arith, j))
