-- ===== src/Server/Decision.antt =====
-- What a request comes to, told without the chain (internal/transport/http/server.go): the first gate
-- that refuses it, or the call that its handler gets; then the response and the log of each end.
use anvilkit_agent_api.Base.{ℕ, String, Option, none, some, List, [], ◌∷◌, ◌++◌}
use anvilkit_agent_api.Errors.{ApiError, Response, from_control, invalid_argument, render}
use anvilkit_agent_api.Access.{Principal}
use anvilkit_agent_api.Access
use anvilkit_agent_api.Body.Request.{Body, strict_body}
use anvilkit_agent_api.Body.Request as Strict
use anvilkit_agent_api.Contract.{request_invalid}
use anvilkit_agent_api.Server.{
  Line, request, panic_recovered, Context, Outcome, returned, panicking, Validation, no_route,
  valid, invalid, level_of, route_of, internal_failure, status_of, new_request_id,
}
use anvilkit_agent_api.Server.Chain.{
  Handling, answered, refused, erred, undecodable, crashed, Call, Request, Settings,
}

pub data Verdict : Type 0 where
  turned_away : Option String → ApiError → Verdict
  misbound : String → Verdict
  admitted : Call → Verdict

-- The call of a caller with a digest and a body, on a request with an identifier.
unfoldable pub call : String → Principal → Option String → Body → Call
call id p digest body = record {
  identity = record { principal = some p; digest = digest };
  body = body;
  metadata = ("x-anvilkit-request-id", id) ∷ [];
}

abbrev pub by_contract : String → Principal → Option String → Body → Validation → Verdict
by_contract id p digest body no_route =
    turned_away none (invalid_argument "no matching operation was found")
by_contract id p digest body (invalid e) = turned_away none (request_invalid e)
by_contract id p digest body valid = admitted (call id p digest body)

abbrev pub by_body : (Body → Validation) → String → Principal → Strict.Gate → Verdict
by_body validate id p (Strict.refused e) = turned_away none e
by_body validate id p (Strict.next digest body) = by_contract id p digest body (validate body)

abbrev pub by_parameters : Option String → Verdict → Verdict
by_parameters none after = after
by_parameters (some m) after = misbound m

abbrev pub by_bearer : (Principal → Verdict) → Access.Gate → Verdict
by_bearer passed (Access.refused challenge e) = turned_away (some challenge) e
by_bearer passed (Access.passed p) = passed p

unfoldable pub id_of : Settings → Request → String
unfolding new_request_id
id_of s r = new_request_id s.base32 r.random

-- The gates of a generated route, and those of the event stream.
unfoldable pub decide : Settings → Request → Verdict
unfolding id_of
decide s r =
    by_bearer
      (λ p.
        by_parameters r.unbound
          (by_body s.validate (id_of s r) p (strict_body s.codec s.limit r.content_length r.body)))
      (Access.authenticate s.verify r.authorization)

unfoldable pub decide_stream : Settings → Request → Verdict
unfolding id_of
decide_stream s r =
    by_bearer (λ p. admitted (call (id_of s r) p none r.body))
      (Access.authenticate s.verify r.authorization)

-- What can be seen of a response, and the lines of the log.
pub record Answer : Type 0 where
  pub status : ℕ
  pub x_request_id : Option String
  pub www_authenticate : Option String
  pub envelope : Option Response
  pub message : Option String
  pub lines : List Line

unfoldable pub answer_of : Context → Answer
unfolding status_of
answer_of c = record {
  status = status_of c;
  x_request_id = c.x_request_id;
  www_authenticate = c.www_authenticate;
  envelope = c.envelope;
  message = c.message;
  lines = c.lines;
}

unfoldable pub seen : Outcome → Option Answer
unfolding answer_of
seen (returned c) = some (answer_of c)
seen (panicking name c) = none

module _ (id : String) (r : Request) where
  abbrev line : ℕ → Option String → Line
  line status code = request (level_of status) id r.method (route_of r.full_path) status code

  -- The envelope of an error, after the lines of a panic.
  unfoldable pub error_answer : Option String → ApiError → List Line → Answer
  error_answer challenge e panics = record {
    status = e.status;
    x_request_id = some id;
    www_authenticate = challenge;
    envelope = some (render e id);
    message = none;
    lines = panics ++ line e.status (some e.code) ∷ [];
  }

  -- The handler's own response.
  unfoldable pub own_answer : ℕ → List Line → Answer
  own_answer status panics = record {
    status = status;
    x_request_id = some id;
    www_authenticate = none;
    envelope = none;
    message = none;
    lines = panics ++ line status none ∷ [];
  }

  abbrev panic_line : String → List Line
  panic_line name = panic_recovered id name r.full_path ∷ []

  unfoldable pub ended : Handling → Answer
  unfolding error_answer own_answer
  ended (answered status) = own_answer status []
  ended (refused e) = error_answer none e []
  ended (erred f) = error_answer none (from_control f) []
  ended undecodable = error_answer none (invalid_argument "request could not be decoded") []
  ended (crashed (some status) name) = own_answer status (panic_line name)
  ended (crashed none name) = error_answer none internal_failure (panic_line name)

  unfoldable pub expected : (Call → Handling) → Verdict → Answer
  unfolding error_answer own_answer ended
  expected handler (turned_away challenge e) = error_answer challenge e []
  expected handler (misbound m) = record (own_answer 400 []) { message = some m }
  expected handler (admitted c) = ended (handler c)
