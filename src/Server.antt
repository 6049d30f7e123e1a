-- ===== src/Server.antt =====
-- The chain of middlewares that a request goes through (internal/transport/http/server.go: NewServer
-- and the middlewares; validation.go, requestValidator; internal/requestid). A middleware takes the
-- rest of the chain, which is Gin's c.Next; one that refuses does not call it, which is c.Abort. A
-- panic leaves the chain until the recovery. Reading the clock and writing bytes are not in the model.
pub mod Chain
pub mod Decision
pub mod Laws
pub mod Served
pub mod Named
mod Examples
use Prim.Native.String.{◌++◌ as ◌<>◌}
use anvilkit_agent_api.Base.{
  ℕ, String, Bool, true, false, Option, none, some, List, [], ◌∷◌, ◌++◌, leb, if◌then◌else◌,
}
use anvilkit_agent_api.Base.Text.{is_empty}
use anvilkit_agent_api.Base.Int.{ℤ}
use anvilkit_agent_api.Errors.{
  ApiError, Failure, Collected, api, Response, from_control, invalid_argument, error_envelope,
}
use anvilkit_agent_api.Access.{Principal}
use anvilkit_agent_api.Access
use anvilkit_agent_api.Body.Request.{Codec, Body, strict_body}
use anvilkit_agent_api.Body.Request as Strict
use anvilkit_agent_api.Contract.{RequestError, request_invalid}
use anvilkit_agent_api.Control.Handlers

pub data Level : Type 0 where
  info warn error : Level

-- A line of the log: one of a request, or of a recovered panic with the type of its value.
pub data Line : Type 0 where
  request :
      Level
      → (request_id method route : String) → (status : ℕ) → (error_code : Option String) → Line
  panic_recovered : (request_id type_name route : String) → Line

-- What the middlewares and the handler share: the keys of the Gin context, the request's own context
-- (`carried` is the identifier that requestid.With puts there), its span's attribute, and the
-- response. `written` is the status with which the response has begun, `message` the `msg` of a body
-- that is no envelope.
pub record Context : Type 0 where
  pub request_id : Option String
  pub x_request_id : Option String
  pub carried : Option String
  pub span_request_id : Option String
  pub www_authenticate : Option String
  pub principal : Option Principal
  pub digest : Option String
  pub body : Body
  pub errors : List Collected
  pub error_code : Option String
  pub written : Option ℕ
  pub envelope : Option Response
  pub message : Option String
  pub lines : List Line

pub data Outcome : Type 0 where
  returned : Context → Outcome
  panicking : String → Context → Outcome

-- The code after c.Next, which a panic skips.
abbrev pub and_then : Outcome → (Context → Outcome) → Outcome
and_then (returned c) after = after c
and_then (panicking name c) after = panicking name c

abbrev or_empty : Option String → String
or_empty none = ""
or_empty (some s) = s

unfoldable pub request_id_of : Context → String
request_id_of c = or_empty c.request_id

unfoldable pub fail : Context → ApiError → Context
fail c e = record c { errors = c.errors ++ api e ∷ [] }

-- newRequestID, over base32 and the random bytes.
unfoldable pub new_request_id : (List ℕ → String) → List ℕ → String
new_request_id base32 bytes = "req_" <> base32 bytes

-- requestid.From
unfoldable pub carried_id : Context → String
carried_id c = or_empty c.carried

-- The metadata of a call to an owner: requestid.UnaryClient and StreamClient.
unfoldable pub metadata_of : String → List (String × String)
metadata_of id = if is_empty id then [] else ("x-anvilkit-request-id", id) ∷ []

unfoldable pub outgoing : Context → List (String × String)
unfolding carried_id metadata_of
outgoing c = metadata_of (carried_id c)

abbrev status_or : Option ℕ → ℕ → ℕ
status_or none d = d
status_or (some n) d = n

-- c.Writer.Status
unfoldable pub status_of : Context → ℕ
status_of c = status_or c.written 200

unfoldable pub level_of : ℕ → Level
level_of status = if leb 500 status then error else if leb 400 status then warn else info

unfoldable pub route_of : String → String
route_of full_path = if is_empty full_path then "unmatched" else full_path

-- requestID
unfoldable pub with_request_id : String → (Context → Outcome) → Context → Outcome
with_request_id id next c = next (record c {
  request_id = some id;
  x_request_id = some id;
  span_request_id = some id;
  carried = some id;
})

unfoldable pub line_of : String → String → Context → Line
unfolding level_of request_id_of route_of status_of
line_of method full_path c =
    request (level_of (status_of c)) (request_id_of c) method (route_of full_path) (status_of c)
      c.error_code

-- logRequests
unfoldable pub log_requests : String → String → (Context → Outcome) → Context → Outcome
unfolding line_of
log_requests method full_path next c =
    and_then (next c)
      (λ d. returned (record d { lines = d.lines ++ line_of method full_path d ∷ [] }))

abbrev is_written : Option ℕ → Bool
is_written none = false
is_written (some _) = true

-- The envelope, if there is one, begins the response with its status.
unfoldable pub enveloped : Context → Option Response → Context
enveloped c none = c
enveloped c (some r) = record c {
  error_code = some r.code;
  written = some r.status;
  envelope = some r;
}

-- errorEnvelope
unfoldable pub render_errors : (Context → Outcome) → Context → Outcome
unfolding enveloped error_envelope request_id_of
render_errors next c =
    and_then (next c) (λ d.
      returned (enveloped d (error_envelope (is_written d.written) d.errors (request_id_of d))))

abbrev pub internal_failure : ApiError
internal_failure = record {
  status = 503;
  code = "DEPENDENCY_UNAVAILABLE";
  message = "internal failure";
  retryable = true;
  field = "";
}

unfoldable pub rescued : String → Outcome → Outcome
unfolding fail request_id_of
rescued full_path (returned c) = returned c
rescued full_path (panicking name c) = returned (
    fail (record c { lines = c.lines ++ panic_recovered (request_id_of c) name full_path ∷ [] })
      internal_failure)

-- The recovery and what NewServer has it do.
unfoldable pub recover_panics : String → (Context → Outcome) → Context → Outcome
unfolding rescued
recover_panics full_path next c = rescued full_path (next c)

unfoldable pub through_gate : (Context → Outcome) → Context → Access.Gate → Outcome
unfolding fail
through_gate next c (Access.refused challenge e) =
    returned (fail (record c { www_authenticate = some challenge }) e)
through_gate next c (Access.passed p) = next (record c { principal = some p })

-- authenticate, as a middleware: the header through the verifier.
unfoldable pub require_principal :
    (String → Option Principal) → String → (Context → Outcome) → Context → Outcome
unfolding through_gate Access.authenticate
require_principal verify header next c = through_gate next c (Access.authenticate verify header)

-- The generated wrapper of a route binds the parameters before the route's own middlewares. NewServer
-- gives it no error function, so it answers what it could not bind with its default, outside the
-- envelope; the text is the generated code's.
unfoldable pub bind_parameters : Option String → (Context → Outcome) → Context → Outcome
bind_parameters none next c = next c
bind_parameters (some m) next c = returned (record c { written = some 400; message = some m })

abbrev set_digest : Option String → Option String → Option String
set_digest old none = old
set_digest old (some d) = some d

unfoldable pub through_body : (Context → Outcome) → Context → Strict.Gate → Outcome
unfolding fail
through_body next c (Strict.refused e) = returned (fail c e)
through_body next c (Strict.next digest body) =
    next (record c { digest = set_digest c.digest digest; body = body })

-- strictBody, as a middleware.
unfoldable pub require_strict_body : Codec → ℕ → ℤ → (Context → Outcome) → Context → Outcome
unfolding through_body strict_body
require_strict_body codec limit content_length next c =
    through_body next c (strict_body codec limit content_length c.body)

-- What kin-openapi's router and validation answer; an error may be no RequestError.
pub data Validation : Type 0 where
  no_route valid : Validation
  invalid : Option RequestError → Validation

unfoldable pub through_contract : (Context → Outcome) → Context → Validation → Outcome
unfolding fail invalid_argument request_invalid
through_contract next c no_route =
    returned (fail c (invalid_argument "no matching operation was found"))
through_contract next c (invalid e) = returned (fail c (request_invalid e))
through_contract next c valid = next c

-- requestValidator
unfoldable pub require_contract : (Body → Validation) → (Context → Outcome) → Context → Outcome
unfolding through_contract
require_contract validate next c = through_contract next c (validate c.body)
