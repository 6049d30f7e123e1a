-- ===== src/Access.antt =====
-- Who calls (internal/transport/http/server.go, authenticate; internal/adapters/fixtureauth): the
-- bearer token of a request, the verifier's answer, and the verifier of the principals file. Reading
-- and decoding the file is Go's: `load` starts from its entries.
pub mod Oidc
mod Examples
use Prim.Native.Char.{code}
use Prim.Native.String.{String}
use Prim.Native.String
use mathlib.Core.Option.{some-injective}
use mathlib.Core.Path.{subst}
use mathlib.Core.List.{Mem, mem-cons_self, mem-cons_of_mem}
use text.Mathlib.Text.{◌==◌ as str_eq}
use text.Mathlib.TextEquality.{eq_iff}
use text.Mathlib.TextLemmas.{nil-append, cons-append}
use anvilkit_agent_api.Base.{
  ℕ, ◌≤◌, ◌≡◌, refl, sym, ap, ◌∙◌, ◌≢◌, ◌↔◌, ◌⊎◌, inl, inr, Bool, true, false, not, ◌&&◌, ◌||◌,
  Option, none, some, List, [], ◌∷◌, ltb, ◌==◌, arith, if◌then◌else◌, length, All, Bool-cases,
  Option-cases,
}
use anvilkit_agent_api.Base.Text.{is_empty, utf8}
use anvilkit_agent_api.Base.Dict.{lookup}
use anvilkit_agent_api.Errors.{ApiError}

-- application.Principal
pub record Principal : Type 0 where
  pub tenant_id : String
  pub project_id : String
  pub actor_id : String
  pub roles : List String

-- What follows a prefix.
unfoldable pub after : String → String → Option String
after String.[] s = some s
after (String.◌∷◌ c p) String.[] = none
after (String.◌∷◌ c p) (String.◌∷◌ d s) =
    let rest = after p s in if code c == code d then rest else none

-- A middleware either refuses the request, with the challenge of its response, or passes it on.
pub data Gate : Type 0 where
  refused : String → ApiError → Gate
  passed : Principal → Gate

abbrev unauthenticated : String → ApiError
unauthenticated message = record {
  status = 401;
  code = "UNAUTHENTICATED";
  message = message;
  retryable = false;
  field = "";
}

abbrev no_token : Gate
no_token = refused "Bearer realm=\"anvilkit\"" (unauthenticated "bearer token required")

abbrev verified : Option Principal → Gate
verified none =
    refused "Bearer realm=\"anvilkit\", error=\"invalid_token\""
      (unauthenticated "token not accepted")
verified (some p) = passed p

abbrev with_token : (String → Option Principal) → Option String → Gate
with_token verify none = no_token
with_token verify (some token) = if is_empty token then no_token else verified (verify token)

-- The Authorization header through the verifier.
unfoldable pub authenticate : (String → Option Principal) → String → Gate
authenticate verify header = with_token verify (after "Bearer " header)

pub record Entry : Type 0 where
  pub tenant_id : String
  pub project_id : String
  pub actor_id : String
  pub roles : List String

abbrev malformed : String × Entry → Bool
malformed (token, e) = ltb (length (utf8 token)) 16 || is_empty e.tenant_id || is_empty e.actor_id

unfoldable pub any_malformed : List (String × Entry) → Bool
any_malformed [] = false
any_malformed (e ∷ rest) = malformed e || any_malformed rest

-- Load: the verifier's tokens.
unfoldable pub load : List (String × Entry) → Option (List (String × Entry))
load entries = if any_malformed entries then none else some entries

-- Verify compares every token in constant time; which one matches is a lookup.
abbrev principal_of : Entry → Principal
principal_of e = record {
  tenant_id = e.tenant_id;
  project_id = e.project_id;
  actor_id = e.actor_id;
  roles = e.roles;
}

unfoldable pub verify : List (String × Entry) → String → Option Principal
verify [] bearer = none
verify ((token, e) ∷ rest) bearer =
    let later = verify rest bearer in if str_eq token bearer then some (principal_of e) else later

after-append : (p s : String) → after p (String.◌++◌ p s) ≡ some s
unfolding after
after-append String.[] s = rw nil-append refl
after-append (String.◌∷◌ c p) s = rw cons-append (ground (arith, after-append p s))

-- An entry that the file may hold: a token of at least 16 bytes, with its tenant and its actor.
pub record IsWellFormed (token : String) (e : Entry) : Type 0 where
  pub long_enough : 16 ≤ length (utf8 token)
  pub tenant : e.tenant_id ≢ ""
  pub actor : e.actor_id ≢ ""

verify-entry :
    (tokens : List (String × Entry)) (bearer : String) (p : Principal)
    → any_malformed tokens ≡ false
    → verify tokens bearer ≡ some p
    → (e : Entry) × Mem (bearer, e) tokens × IsWellFormed bearer e × (p ≡ principal_of e)
unfolding any_malformed verify
verify-entry [] bearer p ok h = let stop : none ≡ some p = h in cc
verify-entry ((token, e) ∷ rest) bearer p ok h = elim (Bool-cases (str_eq token bearer)) [
  | inl same ↦ (
    e,
    subst (λ t. Mem (t, e) ((token, e) ∷ rest)) ((eq_iff token bearer).0 same) mem-cons_self,
    record {
      long_enough = ground (arith, ok, same, eq_iff token bearer);
      tenant = ground (arith, ok, eq_iff e.tenant_id "");
      actor = ground (arith, ok, eq_iff e.actor_id "");
    },
    ground (arith, h, same),
  )
  | inr other ↦
      let (found, within, well, same) =
        verify-entry rest bearer p (ground (arith, ok)) (rw (other, verify) at h) in
      (found, mem-cons_of_mem (token, e) within, well, same)
]

-- A request behind the principals file passes only where the header is "Bearer " and a token that the
-- file has an entry for, with at least 16 bytes; its principal is that of such an entry, which has a
-- tenant and an actor.
pub fixture_passed :
    (entries tokens : List (String × Entry)) (header : String) (p : Principal)
    → load entries ≡ some tokens
    → authenticate (verify tokens) header ≡ passed p
    → (token : String) × (e : Entry) × (after "Bearer " header ≡ some token)
      × Mem (token, e) entries
      × IsWellFormed token e
      × (p ≡ principal_of e)
unfolding load authenticate
fixture_passed entries tokens header p accepted h = elim (Bool-cases (any_malformed entries)) [
  | inl bad ↦ let stop : none ≡ some tokens = rw (bad, load) at accepted in cc
  | inr good ↦
      let same : entries ≡ tokens = some-injective entries tokens (rw (good, load) at accepted) in
      elim (Option-cases (after "Bearer " header)) [
        | inl missing ↦ let stop : no_token ≡ passed p = rw (missing, authenticate) at h in cc
        | inr (token, found) ↦ elim (Bool-cases (is_empty token)) [
          | inl empty ↦ let stop : no_token ≡ passed p = rw (found, empty, authenticate) at h in cc
          | inr given ↦ elim (Option-cases (verify tokens token)) [
            | inl unknown ↦
                let stop : verified none ≡ passed p =
                  rw (found, given, unknown, authenticate) at h in
                cc
            | inr (q, known) ↦
                let read : passed q ≡ passed p = rw (found, given, known, authenticate) at h in
                let (e, within, well, same_principal) =
                  verify-entry tokens token q (ap any_malformed (sym same) ∙ good) known in
                (
                  token,
                  e,
                  found,
                  subst (Mem (token, e)) (sym same) within,
                  well,
                  ground (arith, read, same_principal),
                )
          ]
        ]
      ]
]

-- A request whose header is "Bearer " and a token, not empty, gets the verifier's decision on that
-- token: its principal, or the challenge of a refused token.
pub authenticate_lem :
    (check : String → Option Principal) (token : String)
    → token ≢ ""
    → authenticate check (String.◌++◌ "Bearer " token) ≡ verified (check token)
unfolding authenticate
authenticate_lem check token given =
    rw (after-append "Bearer " token, authenticate) (ground (arith, given, eq_iff token ""))
