-- ===== src/Errors/Owner.antt =====
-- MapError (internal/adapters/control/client.go): the gRPC status of an owning service as the
-- public error.
use Prim.Native.String.{◌++◌}
use text.Mathlib.Text.{◌==◌ as str_eq}
use anvilkit_agent_api.Base.{
  ℕ, String, Bool, true, false, Option, none, some, List, [], ◌∷◌, ◌||◌, if◌then◌else◌,
}
use anvilkit_agent_api.Base.Text.{cut_before}
use anvilkit_agent_api.Errors.{ControlError}

-- google.golang.org/grpc/codes; a peer may send any number.
pub data GrpcCode : Type 0 where
  ok canceled unknown invalid_argument deadline_exceeded not_found already_exists : GrpcCode
  permission_denied resource_exhausted failed_precondition aborted out_of_range : GrpcCode
  unimplemented internal unavailable data_loss unauthenticated : GrpcCode
  unlisted : ℕ → GrpcCode

-- An error of a gRPC call, as `status.FromError` reads it.
pub data OwnerError : Type 0 where
  status : GrpcCode → String → OwnerError
  no_status : OwnerError

abbrev pub public_conflicts : List String
public_conflicts =
    "REVISION_CONFLICT" ∷ "IDEMPOTENCY_CONFLICT" ∷ "STALE_EXECUTION" ∷ "PROFILE_UNQUALIFIED"
    ∷ "BUDGET_EXHAUSTED" ∷ "CAPACITY_EXHAUSTED" ∷ "EFFECT_UNCERTAIN" ∷ []

abbrev pub one_of : String → List String → Bool
one_of s [] = false
one_of s (t ∷ ts) = str_eq s t || one_of s ts

abbrev pub refused : String → String → ControlError
refused code message = record { code = code; message = message; retryable = false }

abbrev pub unavailable_error : String → ControlError
unavailable_error message = record {
  code = "DEPENDENCY_UNAVAILABLE";
  message = message;
  retryable = true;
}

-- The code that the owner names: its message up to the first colon.
unfoldable pub code_of : String → String
code_of message = cut_before b':' message

unfoldable pub conflict : String → ControlError
unfolding code_of
conflict message =
    if one_of (code_of message) public_conflicts
    then refused (code_of message) message
    else refused "REVISION_CONFLICT" message

-- The switch on the gRPC code.
unfoldable pub by_code : GrpcCode → String → String → ControlError
unfolding conflict
by_code not_found message service = refused "NOT_FOUND" "not found"
by_code invalid_argument message service = refused "INVALID_ARGUMENT" message
by_code aborted message service = conflict message
by_code failed_precondition message service = conflict message
by_code permission_denied message service = refused "FORBIDDEN" message
by_code unauthenticated message service = refused "FORBIDDEN" message
by_code already_exists message service = refused "IDEMPOTENCY_CONFLICT" message
by_code resource_exhausted message service = record {
  code = "CAPACITY_EXHAUSTED";
  message = message;
  retryable = true;
}
by_code unavailable message service = unavailable_error (service ++ " unavailable")
by_code canceled message service = unavailable_error (service ++ " call ended")
by_code deadline_exceeded message service = unavailable_error (service ++ " call ended")
by_code _ message service = unavailable_error (service ++ " error")

-- The error of a call that failed.
unfoldable pub map_failed : OwnerError → String → ControlError
unfolding code_of by_code
map_failed no_status service = unavailable_error (service ++ " unavailable")
map_failed (status c message) service =
    if str_eq (code_of message) "EFFECT_UNCERTAIN"
    then refused "EFFECT_UNCERTAIN" message
    else by_code c message service

-- A call without error has none to map.
unfoldable pub map_error : Option OwnerError → String → Option ControlError
unfolding map_failed
map_error none service = none
map_error (some e) service = some (map_failed e service)
