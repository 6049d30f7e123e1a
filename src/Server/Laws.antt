-- ===== src/Server/Laws.antt =====
-- The chain answers what the flat account of the gates says.
use anvilkit_agent_api.Base.{
  Bool-cases, false, inl, inr, ℕ, String, ◌≡◌, refl, Option, none, some, List, [], ◌∷◌, ◌∙◌, ap,
}
use Prim.Native.String.{◌++◌ as ◌<>◌}
use text.Mathlib.TextEquality.{eq_iff}
use text.Mathlib.TextLemmas.{cons-append}
use anvilkit_agent_api.Base.Text.{is_empty}
use anvilkit_agent_api.Access.{Principal}
use anvilkit_agent_api.Access
use anvilkit_agent_api.Body.Request.{Body, strict_body}
use anvilkit_agent_api.Body.Request as Strict
use anvilkit_agent_api.Server.{
  require_principal, new_request_id, metadata_of, Validation, no_route, valid, invalid,
  bind_parameters, through_gate, through_body, through_contract, require_strict_body,
  require_contract,
}
use anvilkit_agent_api.Server.Chain.{
  Handling, answered, refused, erred, undecodable, crashed, Call, Request, Settings, engine, serve,
  run_handler, handled,
}
use anvilkit_agent_api.Server.Decision.{
  seen, id_of, expected, decide, ended, call, by_contract, by_body, by_bearer, by_parameters,
}

new_request_id-present :
    (base32 : List ℕ → String) (bytes : List ℕ) → is_empty (new_request_id base32 bytes) ≡ false
unfolding new_request_id
new_request_id-present base32 bytes = elim (Bool-cases (is_empty ("req_" <> base32 bytes))) [
  | inl h ↦
      let empty : "req_" <> base32 bytes ≡ "" = (eq_iff _ _).0 h in
      let e : "req_" <> base32 bytes ≡ String.◌∷◌ "r" ("eq_" <> base32 bytes) =
        cons-append "r" "eq_" (base32 bytes) in
      cc
  | inr h ↦ h
]

metadata_of_new :
    (base32 : List ℕ → String) (bytes : List ℕ)
    → metadata_of (new_request_id base32 bytes)
      ≡ ("x-anvilkit-request-id", new_request_id base32 bytes) ∷ []
unfolding metadata_of
metadata_of_new base32 bytes = rw (new_request_id-present base32 bytes)

module _ (s : Settings) (r : Request) where
  ended_lem :
      (h : Handling) (p : Principal) (digest : Option String) (body : Body)
      → seen (
          engine s.base32 r
            (λ d. handled (record d { principal = some p; digest = digest; body = body }) h))
        ≡ some (ended (id_of s r) r h)
  unfolding engine seen ended handled id_of
  ended_lem (answered status) p digest body = refl
  ended_lem (refused e) p digest body = refl
  ended_lem (erred f) p digest body = refl
  ended_lem undecodable p digest body = refl
  ended_lem (crashed none name) p digest body = refl
  ended_lem (crashed (some status) name) p digest body = refl

  module _ (handler : Call → Handling) where
    by_contract_lem :
        (v : Validation) (p : Principal) (digest : Option String) (body : Body)
        → seen (
            engine s.base32 r (λ d.
              through_contract
                (run_handler handler)
                (record d { principal = some p; digest = digest; body = body })
                v))
          ≡ some (expected (id_of s r) r handler (by_contract (id_of s r) p digest body v))
    unfolding engine seen expected id_of through_contract run_handler call
    by_contract_lem no_route p digest body = refl
    by_contract_lem (invalid e) p digest body = refl
    by_contract_lem valid p digest body =
        ap
          (λ (m : List (String × String)). seen (
            engine s.base32 r (λ d.
              handled (record d { principal = some p; digest = digest; body = body })
                (handler (record (call (id_of s r) p digest body) { metadata = m })))))
          (metadata_of_new s.base32 r.random)
        ∙ ended_lem (handler (call (id_of s r) p digest body)) p digest body

    by_body_lem :
        (g : Strict.Gate) (p : Principal)
        → seen (
            engine s.base32 r (λ d.
              through_body
                (require_contract s.validate (run_handler handler))
                (record d { principal = some p })
                g))
          ≡ some (expected (id_of s r) r handler (by_body s.validate (id_of s r) p g))
    unfolding engine seen expected id_of through_body require_contract
    by_body_lem (Strict.refused e) p = refl
    by_body_lem (Strict.next none body) p = by_contract_lem (s.validate body) p none body
    by_body_lem (Strict.next (some digest) body) p =
        by_contract_lem (s.validate body) p (some digest) body

    by_parameters_lem :
        (u : Option String) (p : Principal)
        → seen (
            engine s.base32 r (λ d.
              bind_parameters u
                (require_strict_body s.codec s.limit r.content_length
                  (require_contract s.validate (run_handler handler)))
                (record d { principal = some p })))
          ≡ some (
              expected (id_of s r) r handler (
                by_parameters u (
                  by_body s.validate
                    (id_of s r)
                    p
                    (strict_body s.codec s.limit r.content_length r.body))))
    unfolding engine seen expected id_of bind_parameters require_strict_body
    by_parameters_lem none p = by_body_lem (strict_body s.codec s.limit r.content_length r.body) p
    by_parameters_lem (some m) p = refl

    by_bearer_lem :
        (g : Access.Gate)
        → seen (
            engine s.base32 r (λ d.
              through_gate
                (bind_parameters r.unbound (
                  require_strict_body s.codec s.limit r.content_length
                    (require_contract s.validate (run_handler handler))))
                d
                g))
          ≡ some (
              expected (id_of s r) r handler (
                by_bearer
                  (λ p. by_parameters r.unbound (
                    by_body s.validate
                      (id_of s r)
                      p
                      (strict_body s.codec s.limit r.content_length r.body)))
                  g))
    unfolding engine seen expected id_of through_gate bind_parameters
    by_bearer_lem (Access.refused challenge e) = refl
    by_bearer_lem (Access.passed p) = by_parameters_lem r.unbound p

    -- A request on a generated route gets the answer, and leaves the lines in the log, that the flat
    -- account gives: the first of the bearer token, the parameters, the body and the contract that
    -- refuses it decides, and otherwise the handler, which reads the verified principal, the digest of
    -- the body and its owners' metadata with the request's identifier; every error but that of a
    -- parameter, also that of a handler that panics before it has begun the response, is the one
    -- envelope.
    pub serve-decide : seen (serve s handler r) ≡ some (expected (id_of s r) r handler (decide s r))
    unfolding serve decide require_principal
    serve-decide = by_bearer_lem (Access.authenticate s.verify r.authorization)
