-- ===== src/Errors.antt =====
-- The public error envelope (internal/transport/http/server.go): the error that a handler or a
-- middleware decides, the mapping of Control's errors, and the response that errorEnvelope renders.
-- Texts of the rendered response are the bytes that errorEnvelope hands to c.JSON, which is what
-- `truncate` counts; it may cut inside a rune, and what encoding/json then writes is not in the model.
pub mod Owner
pub mod Laws
mod Examples
use text.Mathlib.Text.{◌==◌ as str_eq}
use anvilkit_agent_api.Base.{
  ℕ, String, Bool, true, false, not, ◌&&◌, ◌||◌, Option, none, some, List, [], ◌∷◌, leb, ◌==◌,
  length, take, if◌then◌else◌,
}
use anvilkit_agent_api.Base.Text.{utf8, is_empty}
use anvilkit_agent_api.Base.Dict.{lookup}

-- application.ControlError: the public code that an owning service decided.
pub record ControlError : Type 0 where
  pub code : String
  pub message : String
  pub retryable : Bool

-- What `errors.As` and `errors.Is` find in a Go error, in the order in which fromControl asks.
pub data Failure : Type 0 where
  control : ControlError → Failure
  forbidden : Failure
  other : Failure

pub record ApiError : Type 0 where
  pub status : ℕ
  pub code : String
  pub message : String
  pub retryable : Bool
  pub field : String

unfoldable pub invalid_argument : String → ApiError
invalid_argument message = record {
  status = 400;
  code = "INVALID_ARGUMENT";
  message = message;
  retryable = false;
  field = "";
}

unfoldable pub invalid_field : String → String → ApiError
unfolding invalid_argument
invalid_field message field = record (invalid_argument message) { field = field }

abbrev pub http_status : List (String × ℕ)
http_status =
    ("INVALID_ARGUMENT", 400)
    ∷ ("UNAUTHENTICATED", 401)
    ∷ ("FORBIDDEN", 403)
    ∷ ("NOT_FOUND", 404)
    ∷ ("REVISION_CONFLICT", 409)
    ∷ ("IDEMPOTENCY_CONFLICT", 409)
    ∷ ("STALE_EXECUTION", 409)
    ∷ ("PROFILE_UNQUALIFIED", 409)
    ∷ ("EFFECT_UNCERTAIN", 409)
    ∷ ("CAPACITY_EXHAUSTED", 429)
    ∷ ("BUDGET_EXHAUSTED", 429)
    ∷ ("DEPENDENCY_UNAVAILABLE", 503)
    ∷ []

abbrev dependency_unavailable : ApiError
dependency_unavailable = record {
  status = 503;
  code = "DEPENDENCY_UNAVAILABLE";
  message = "dependency unavailable";
  retryable = true;
  field = "";
}

abbrev pub status_or : Option ℕ → ℕ → ℕ
status_or none d = d
status_or (some n) d = n

unfoldable pub from_control : Failure → ApiError
from_control (control e) = record {
  status = status_or (lookup e.code http_status) 503;
  code = e.code;
  message = e.message;
  retryable = e.retryable && not (str_eq e.code "EFFECT_UNCERTAIN");
  field = "";
}
from_control forbidden = record {
  status = 403;
  code = "FORBIDDEN";
  message = "not permitted";
  retryable = false;
  field = "";
}
from_control other = dependency_unavailable

-- `s[:n]`, on the bytes of `s`.
unfoldable pub truncate : String → ℕ → List ℕ
truncate s n = let b = utf8 s in if leb (length b) n then b else take n b

unfoldable pub retry_after_seconds : ApiError → String
retry_after_seconds e = if str_eq e.code "CAPACITY_EXHAUSTED" then "5" else "2"

-- An error collected on the Gin context: one of the API's, or any other.
pub data Collected : Type 0 where
  api : ApiError → Collected
  foreign : Collected

pub record Response : Type 0 where
  pub status : ℕ
  pub retry_after : Option String
  pub code : String
  pub field : Option (List ℕ)
  pub message : List ℕ
  pub request_id : String
  pub retryable : Bool

abbrev as_api : Collected → ApiError
as_api (api e) = e
as_api foreign = dependency_unavailable

unfoldable pub render : ApiError → String → Response
unfolding truncate retry_after_seconds
render e request_id = record {
  status = e.status;
  retry_after =
      if e.retryable && (e.status == 429 || e.status == 503)
      then some (retry_after_seconds e)
      else none;
  code = e.code;
  field = if is_empty e.field then none else some (truncate e.field 128);
  message = truncate e.message 512;
  request_id = request_id;
  retryable = e.retryable;
}

-- The middleware after the chain has run: `written` says that a handler has begun the response.
unfoldable pub error_envelope : Bool → List Collected → String → Option Response
unfolding render
error_envelope written [] request_id = none
error_envelope written (first ∷ _) request_id =
    if written then none else some (render (as_api first) request_id)
