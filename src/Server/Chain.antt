-- ===== src/Server/Chain.antt =====
-- The routes as NewServer composes them (internal/transport/http/server.go): the engine's own
-- middlewares round each, the authentication of the group, and the body and the contract of the
-- generated routes. A handler is a function of what it reads of the context.
use anvilkit_agent_api.Base.{ℕ, String, Option, none, some, List, []}
use anvilkit_agent_api.Base.Int.{ℤ}
use anvilkit_agent_api.Errors.{ApiError, Failure, from_control, invalid_argument}
use anvilkit_agent_api.Access.{Principal}
use anvilkit_agent_api.Body.Request.{Codec, Body}
use anvilkit_agent_api.Control.Handlers
use anvilkit_agent_api.Server.{
  Context, Outcome, returned, panicking, Validation, fail, outgoing, new_request_id,
  with_request_id, log_requests, render_errors, recover_panics, require_principal, bind_parameters,
  require_strict_body, require_contract,
}

-- How a handler ends: it has written a response, or not; the strict handlers hand on an error, and the
-- strict wrapper may fail to decode the body before them; or it panics, perhaps after it began the
-- response.
pub data Handling : Type 0 where
  answered : ℕ → Handling
  refused : ApiError → Handling
  erred : Failure → Handling
  undecodable : Handling
  crashed : Option ℕ → String → Handling

-- What a handler reads: the keys of the context, the body, and the metadata of its owners' calls.
pub record Call : Type 0 where
  pub identity : Handlers.Context
  pub body : Body
  pub metadata : List (String × String)

unfoldable pub call_of : Context → Call
unfolding outgoing
call_of c = record {
  identity = record { principal = c.principal; digest = c.digest };
  body = c.body;
  metadata = outgoing c;
}

-- The error functions of the strict handler.
unfoldable pub handled : Context → Handling → Outcome
unfolding fail from_control invalid_argument
handled c (answered status) = returned (record c { written = some status })
handled c (refused e) = returned (fail c e)
handled c (erred f) = returned (fail c (from_control f))
handled c undecodable = returned (fail c (invalid_argument "request could not be decoded"))
handled c (crashed status name) = panicking name (record c { written = status })

unfoldable pub run_handler : (Call → Handling) → Context → Outcome
unfolding handled call_of
run_handler handler c = handled c (handler (call_of c))

-- A request, as far as the chain reads it; `random` is what newRequestID draws for it, and `base32`
-- writes that. `unbound` is what the generated wrapper says of a parameter that it cannot bind.
pub record Request : Type 0 where
  pub random : List ℕ
  pub method : String
  pub full_path : String
  pub authorization : String
  pub unbound : Option String
  pub content_length : ℤ
  pub body : Body

unfoldable pub arrived : Request → Context
arrived r = record {
  request_id = none;
  x_request_id = none;
  carried = none;
  span_request_id = none;
  www_authenticate = none;
  principal = none;
  digest = none;
  body = r.body;
  errors = [];
  error_code = none;
  written = none;
  envelope = none;
  message = none;
  lines = [];
}

-- engine.Use
unfoldable pub engine : (List ℕ → String) → Request → (Context → Outcome) → Outcome
unfolding new_request_id with_request_id log_requests render_errors recover_panics arrived
engine base32 r route =
    with_request_id (new_request_id base32 r.random)
      (log_requests r.method r.full_path (render_errors (recover_panics r.full_path route)))
      (arrived r)

pub record Settings : Type 0 where
  pub base32 : List ℕ → String
  pub verify : String → Option Principal
  pub codec : Codec
  pub limit : ℕ
  pub validate : Body → Validation

module _ (s : Settings) (handler : Call → Handling) (r : Request) where
  -- A generated route.
  unfoldable pub serve : Outcome
  unfolding engine require_principal bind_parameters require_strict_body require_contract
      run_handler
  serve = engine s.base32 r (
      require_principal s.verify r.authorization (
        bind_parameters r.unbound (
          require_strict_body s.codec s.limit r.content_length
            (require_contract s.validate (run_handler handler)))))

  -- The route of the event stream: no body, no contract.
  unfoldable pub serve_stream : Outcome
  unfolding engine require_principal run_handler
  serve_stream =
      engine s.base32 r (require_principal s.verify r.authorization (run_handler handler))

-- /healthz and /readyz: outside the group.
unfoldable pub serve_probe : (List ℕ → String) → Option String → Request → Outcome
unfolding engine
serve_probe base32 none r = engine base32 r (λ c. returned (record c { written = some 204 }))
serve_probe base32 (some failure) r =
    engine base32 r (λ c. returned (record c { written = some 503 }))
