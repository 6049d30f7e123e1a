-- ===== src/Errors/Examples.antt =====
-- The error mapping on concrete failures, and its theorems there.
use anvilkit_agent_api.Base.{String, ◌≡◌, refl, ◌⊎◌, true, false, none, some, if◌then◌else◌}
use text.Mathlib.Text.{◌==◌ as str_eq}
use anvilkit_agent_api.Base.Text.{cut_before}
use anvilkit_agent_api.Base.Dict.{lookup}
use anvilkit_agent_api.Errors.{http_status}
use anvilkit_agent_api.Errors.Owner.{
  OwnerError, status, failed_precondition, resource_exhausted, map_failed, code_of,
}
use anvilkit_agent_api.Errors.Laws.{owner_response, owner_response_listed, owner_response_retry}

abbrev uncertain_write : String
uncertain_write = "EFFECT_UNCERTAIN: inventory write"

named_code : code_of uncertain_write ≡ "EFFECT_UNCERTAIN"
unfolding code_of cut_before
named_code = refl

own_code :
    (map_failed (status failed_precondition "DESCRIPTOR_MISMATCH: x") "mcp").code
    ≡ "REVISION_CONFLICT"
unfolding map_failed cut_before
own_code = refl

abbrev full : OwnerError
full = status resource_exhausted "CAPACITY_EXHAUSTED: streams"

owner_response_listed_example :
    let r = owner_response full "control" "req_2" in lookup r.code http_status ≡ some r.status
owner_response_listed_example = owner_response_listed full "control" "req_2"

owner_response_retry_example :
    let r = owner_response full "control" "req_2" in
    ((r.retryable ≡ true)
      × (r.retry_after ≡ some (if str_eq r.code "CAPACITY_EXHAUSTED" then "5" else "2")))
    ⊎ ((r.retryable ≡ false) × (r.retry_after ≡ none))
owner_response_retry_example = owner_response_retry full "control" "req_2"
