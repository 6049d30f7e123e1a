-- ===== src/Server/Examples.antt =====
-- A server whose codec knows one document, over a Control that begins every transfer.
use text.Mathlib.Text.{◌==◌ as str_eq}
use anvilkit_agent_api.Base.{
  ℕ, String, ◌≡◌, refl, false, Option, none, some, [], ◌∷◌, if◌then◌else◌,
}
use anvilkit_agent_api.Base.Int.{pos}
use anvilkit_agent_api.Base.Results.{failed, ok}
use anvilkit_agent_api.Errors.Owner.{no_status}
use anvilkit_agent_api.Control.Wire
use anvilkit_agent_api.Control.Wire.{Stubs}
use anvilkit_agent_api.Control.Requests.{get_command}
use anvilkit_agent_api.Server.Served.{control_handler, status_in, control_served}
use anvilkit_agent_api.Errors.{render}
use anvilkit_agent_api.Access.{Principal, authenticate}
use anvilkit_agent_api.Access
use anvilkit_agent_api.Body
use anvilkit_agent_api.Body.Request.{Codec, Body, bytes, strict_body}
use anvilkit_agent_api.Body.Request as Strict
use anvilkit_agent_api.Control.Scoped
use anvilkit_agent_api.Server.{request, panic_recovered, info, warn, error, valid, internal_failure}
use anvilkit_agent_api.Server.Chain.{Handling, crashed, Call, Request, Settings, serve, serve_probe}
use anvilkit_agent_api.Server.Decision.{Answer, seen}

abbrev actor : Principal
actor = record { tenant_id = "t1"; project_id = "p1"; actor_id = "a1"; roles = [] }

-- Every document is read as the text "a".
abbrev codec : Codec
codec = record {
  lex = λ raw. Body.scalar (Body.string "a") ∷ [];
  failure = λ raw left. Body.eof;
  marshal = λ v. some (b'a' ∷ []);
  sha256_hex = λ raw. "00";
  decimal = λ n. "0";
}

abbrev settings : Settings
settings = record {
  base32 = λ random. "A";
  verify = λ token. if str_eq token "good" then some actor else none;
  codec = codec;
  limit = 8;
  validate = λ body. valid;
}

abbrev asking : String → Request
asking authorization = record {
  random = [];
  method = "GET";
  full_path = "/api/v1/operations/:operationId";
  authorization = authorization;
  unbound = none;
  content_length = pos 3;
  body = bytes (b'"' ∷ b'a' ∷ b'"' ∷ []);
}

abbrev reads : Body → Option Scoped.Request
reads body = some (Scoped.get_command_route "op1" "c1")

abbrev recorded : Wire.Receipt
recorded = record {
  command_id = "c1";
  operation_id = "op1";
  kind = "COMMAND_KIND_CANCEL";
  outcome = "COMMAND_OUTCOME_ACCEPTED";
  operation_revision = "2";
  reason_code = "";
  accepted_at = none;
  settled_at = none;
}

abbrev owner : Stubs
owner = record {
  create_operation = λ r. failed no_status;
  get_operation = λ r. failed no_status;
  submit_command = λ r. failed no_status;
  get_command = λ r. ok recorded;
  submit_answer = λ r. failed no_status;
  begin_transfer = λ r. failed no_status;
  finalize_transfer = λ r. failed no_status;
}

abbrev answers : Answer
answers = record {
  status = 200;
  x_request_id = some "req_A";
  www_authenticate = none;
  envelope = none;
  message = none;
  lines = request info "req_A" "GET" "/api/v1/operations/:operationId" 200 none ∷ [];
}

serves : seen (serve settings (control_handler reads owner) (asking "Bearer good")) ≡ some answers
unfolding serve seen control_handler Scoped.serve get_command Body.strict_decode
serves = refl

control_served_example :
    (p : Principal) × (digest : Option String) × (body : Body) × (asked : Scoped.Request)
    × (reply : Scoped.Response) × (authenticate settings.verify "Bearer good" ≡ Access.passed p)
    × (◌≡◌ {A = Option String} none none)
    × (strict_body codec 8 (pos 3) (asking "Bearer good").body ≡ Strict.next digest body)
    × (settings.validate body ≡ valid)
    × (reads body ≡ some asked)
    × (Scoped.serve owner (record { principal = some p; digest = digest }) asked ≡ ok reply)
    × (◌≡◌ {A = ℕ} 200 (status_in reply))
control_served_example =
    control_served settings reads owner (asking "Bearer good") answers serves refl refl

-- A caller that the verifier does not know.
turns_away :
    seen (serve settings (control_handler reads owner) (asking "Bearer bad"))
    ≡ some (record {
      status = 401;
      x_request_id = some "req_A";
      www_authenticate = some "Bearer realm=\"anvilkit\", error=\"invalid_token\"";
      envelope = some (
          render
            (record {
              status = 401;
              code = "UNAUTHENTICATED";
              message = "token not accepted";
              retryable = false;
              field = "";
            })
            "req_A");
      message = none;
      lines =
          request warn "req_A" "GET" "/api/v1/operations/:operationId" 401 (some "UNAUTHENTICATED")
          ∷ [];
    })
unfolding serve seen control_handler Scoped.serve render Access.after
turns_away = refl

-- A parameter that does not bind is answered before the body is read, outside the envelope.
misbinds :
    seen (
      serve settings
        (control_handler reads owner)
        (record (asking "Bearer good") { unbound = some "Invalid format"; content_length = pos 9 }))
    ≡ some (record answers {
      status = 400;
      message = some "Invalid format";
      lines = request warn "req_A" "GET" "/api/v1/operations/:operationId" 400 none ∷ [];
    })
unfolding serve seen Access.after
misbinds = refl

abbrev panics : Call → Handling
panics c = crashed none "runtime.boundsError"

abbrev rescued_answer : Answer
rescued_answer = record {
  status = 503;
  x_request_id = some "req_A";
  www_authenticate = none;
  envelope = some (render internal_failure "req_A");
  message = none;
  lines =
      panic_recovered "req_A" "runtime.boundsError" "/api/v1/operations/:operationId"
      ∷ request error "req_A" "GET" "/api/v1/operations/:operationId" 503
          (some "DEPENDENCY_UNAVAILABLE")
      ∷ [];
}

rescues : seen (serve settings panics (asking "Bearer good")) ≡ some rescued_answer
unfolding serve seen render Body.strict_decode Access.after
rescues = refl

probes :
    seen (serve_probe (λ random. "A") (some "stopping") (asking ""))
    ≡ some (record {
      status = 503;
      x_request_id = some "req_A";
      www_authenticate = none;
      envelope = none;
      message = none;
      lines = request error "req_A" "GET" "/api/v1/operations/:operationId" 503 none ∷ [];
    })
unfolding serve_probe seen
probes = refl
