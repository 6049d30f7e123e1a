-- ===== src/Errors/Laws.antt =====
-- What a client sees of an owner's refusal: a public code with its status, and a retry advertised
-- exactly when it may retry.
use text.Mathlib.Text.{◌==◌ as str_eq}
use text.Mathlib.TextEquality.{eq_iff}
use anvilkit_agent_api.Base.{
  ℕ, String, ◌≡◌, refl, ◌⊎◌, inl, inr, true, false, none, some, List, [], ◌∷◌, arith, Bool-cases,
  All, sym, if◌then◌else◌,
}
use mathlib.Core.Bool.{false≢true}
use mathlib.Core.Path.{subst}
use anvilkit_agent_api.Base.Dict.{lookup}
use anvilkit_agent_api.Errors.{ControlError, control, Response, http_status, from_control, render}
use anvilkit_agent_api.Errors.Owner.{
  GrpcCode, OwnerError, status, no_status, code_of, conflict, by_code, map_failed, one_of,
  public_conflicts, refused, aborted, failed_precondition, not_found, invalid_argument,
  permission_denied, unauthenticated, already_exists, resource_exhausted,
}

-- The response to a request whose owner call failed with `e`.
abbrev pub owner_response : OwnerError → String → String → Response
owner_response e service request_id =
    render (from_control (control (map_failed e service))) request_id

-- An owner's EFFECT_UNCERTAIN is answered 409 under its own code, not retryable and without
-- Retry-After, whichever gRPC code carries it.
pub effect_uncertain_final :
    (c : GrpcCode) (message service request_id : String)
    → code_of message ≡ "EFFECT_UNCERTAIN"
    → let r = owner_response (status c message) service request_id in
      (r.status ≡ 409)
      × (r.code ≡ "EFFECT_UNCERTAIN")
      × (r.retryable ≡ false)
      × (r.retry_after ≡ none)
unfolding render from_control map_failed lookup
effect_uncertain_final c message service request_id e = rw e (refl, refl, refl, refl)

-- A code of the public contract.
abbrev pub IsListed : String → Type 0
IsListed code = (n : ℕ) × (lookup code http_status ≡ some n)

one_of-All :
    (P : String → Type 0) (s : String) (xs : List String) → All P xs → one_of s xs ≡ true → P s
one_of-All P s [] a h = absurd (false≢true h)
one_of-All P s (x ∷ xs) (p, a) h = elim (Bool-cases (str_eq s x)) [
  | inl same ↦ subst P (sym ((eq_iff s x).0 same)) p
  | inr other ↦ one_of-All P s xs a (rw other at h)
]

-- A public code, its status, and the retry flag of the envelope.
abbrev pub IsPublic : ControlError → Type 0
IsPublic e =
    IsListed e.code
    × ((from_control (control e)).retryable ≡ e.retryable)
    × (e.retryable ≡ true
        → ((from_control (control e)).status ≡ 429) ⊎ ((from_control (control e)).status ≡ 503))

refused-IsPublic : (code message : String) → IsListed code → IsPublic (refused code message)
unfolding from_control
refused-IsPublic code message listed = (listed, refl, λ e. absurd (false≢true e))

conflicts-IsListed : All IsListed public_conflicts
unfolding lookup
conflicts-IsListed = (
  (409, refl),
  ((409, refl), ((409, refl), ((409, refl), ((429, refl), ((429, refl), ((409, refl), tt)))))),
)

conflict-IsPublic : (message : String) → IsPublic (conflict message)
unfolding conflict
conflict-IsPublic message = elim (Bool-cases (one_of (code_of message) public_conflicts)) [
  | inl public ↦
      rw (public, conflict)
        (refused-IsPublic (code_of message) message
          (one_of-All IsListed _ public_conflicts conflicts-IsListed public))
  | inr own ↦ rw (own, conflict) (refused-IsPublic "REVISION_CONFLICT" message conflicts-IsListed.0)
]

by_code-IsPublic : (c : GrpcCode) (message service : String) → IsPublic (by_code c message service)
unfolding by_code from_control lookup
by_code-IsPublic aborted message service = conflict-IsPublic message
by_code-IsPublic failed_precondition message service = conflict-IsPublic message
by_code-IsPublic not_found message service = refused-IsPublic "NOT_FOUND" "not found" (404, refl)
by_code-IsPublic invalid_argument message service =
    refused-IsPublic "INVALID_ARGUMENT" message (400, refl)
by_code-IsPublic permission_denied message service =
    refused-IsPublic "FORBIDDEN" message (403, refl)
by_code-IsPublic unauthenticated message service = refused-IsPublic "FORBIDDEN" message (403, refl)
by_code-IsPublic already_exists message service =
    refused-IsPublic "IDEMPOTENCY_CONFLICT" message (409, refl)
by_code-IsPublic resource_exhausted message service = ((429, refl), refl, λ e. inl refl)
by_code-IsPublic _ message service = ((503, refl), refl, λ e. inr refl)

map_failed-IsPublic : (e : OwnerError) (service : String) → IsPublic (map_failed e service)
unfolding map_failed from_control lookup
map_failed-IsPublic no_status service = ((503, refl), refl, λ e. inr refl)
map_failed-IsPublic (status c message) service =
    elim (Bool-cases (str_eq (code_of message) "EFFECT_UNCERTAIN")) [
      | inl uncertain ↦
          rw (uncertain, map_failed) (refused-IsPublic "EFFECT_UNCERTAIN" message (409, refl))
      | inr settled ↦ rw (settled, map_failed) (by_code-IsPublic c message service)
    ]

-- Whatever an owner's call fails with, the response carries one of the contract's codes under that
-- code's own status.
pub owner_response_listed :
    (e : OwnerError) (service request_id : String)
    → let r = owner_response e service request_id in lookup r.code http_status ≡ some r.status
unfolding render from_control
owner_response_listed e service request_id =
    let ((n, listed), _, _) = map_failed-IsPublic e service in rw listed

-- A response to an owner's failure has a Retry-After exactly when it says that it is retryable; the
-- interval is 5 seconds for CAPACITY_EXHAUSTED and 2 for any other code.
pub owner_response_retry :
    (e : OwnerError) (service request_id : String)
    → let r = owner_response e service request_id in
      ((r.retryable ≡ true)
        × (r.retry_after ≡ some (if str_eq r.code "CAPACITY_EXHAUSTED" then "5" else "2")))
      ⊎ ((r.retryable ≡ false) × (r.retry_after ≡ none))
unfolding render
owner_response_retry e service request_id =
    let (listed, kept, pacing) = map_failed-IsPublic e service in ground (arith, kept, pacing)
