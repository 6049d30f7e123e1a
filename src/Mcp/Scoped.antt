-- ===== src/Mcp/Scoped.antt =====
-- Whose requests the API makes on MCP, and what it sends as a tool call's arguments.
use text.Mathlib.Text.{◌==◌ as str_eq}
use anvilkit_agent_api.Base.{
  String, ℕ, ◌≤◌, ◌≡◌, refl, ap, Option, none, some, List, ltb, length, arith, inl, inr, Bool-cases,
}
use anvilkit_agent_api.Access.{Principal}
use anvilkit_agent_api.Body.Request.{digest_bytes}
use anvilkit_agent_api.Control.Handlers.{identity, principal_of, respond}
use anvilkit_agent_api.Control.Scoped.{verified, IsOwn, IsOwnCommand}
use anvilkit_agent_api.Mcp.{CreateToolCallRequest, ReviewRequest}
use anvilkit_agent_api.Mcp.Wire
use anvilkit_agent_api.Mcp.Wire.{Stubs}
use anvilkit_agent_api.Mcp.Client.{
  scope, command, mapped, to_descriptor, to_grant, to_call, to_page, progress_grant, to_progress,
}
use anvilkit_agent_api.Mcp.Requests
use anvilkit_agent_api.Mcp.Requests.{Env, client, max_arguments, create_call, call_request}
use anvilkit_agent_api.Mcp.Handlers.{
  Request, answered, handle, list_catalog, list_grants, get_grant, get_revocation_progress,
  get_tool_call, reconcile_tool_call, discover_server, review_descriptor, create_grant,
  revoke_grant, create_tool_call, catalog_page, descriptor, grant_page, grant, progress, tool_call,
}

-- The command that the request's body names; a read has none.
unfoldable pub command_id_of : Request → String
command_id_of (discover_server body) = body.command_id
command_id_of (review_descriptor server_id body) = body.command_id
command_id_of (create_grant body) = body.command_id
command_id_of (revoke_grant grant_id body) = body.command_id
command_id_of (create_tool_call body) = body.command_id
command_id_of _ = ""

module _ (env : Env) (p : Principal) (digest command_id : String) where
  -- At most 64 KiB of arguments, under the digest of exactly those bytes.
  abbrev IsExact : Wire.CreateCall → Type 0
  IsExact r =
      (length r.arguments ≤ 65536) × (r.argument_digest ≡ digest_bytes env.sha256_hex r.arguments)

  -- Two owners answer alike the messages that carry the caller's own scope, the command's own
  -- identity and exact arguments; what either answers to any other message is left open.
  pub record Alike (s t : Stubs) : Type 0 where
    pub list_catalog :
        (r : Wire.ListRequest)
        → IsOwn p digest command_id r.scope
        → s.list_catalog r ≡ t.list_catalog r
    pub list_grants :
        (r : Wire.ListRequest)
        → IsOwn p digest command_id r.scope
        → s.list_grants r ≡ t.list_grants r
    pub get_revocation_progress :
        (r : Wire.GrantQuery)
        → IsOwn p digest command_id r.scope
        → s.get_revocation_progress r ≡ t.get_revocation_progress r
    pub get_call :
        (r : Wire.CallQuery) → IsOwn p digest command_id r.scope → s.get_call r ≡ t.get_call r
    pub reconcile_call :
        (r : Wire.CallQuery)
        → IsOwn p digest command_id r.scope
        → s.reconcile_call r ≡ t.reconcile_call r
    pub discover_server :
        (r : Wire.DiscoverRequest)
        → IsOwn p digest command_id r.scope
        → IsOwnCommand p digest command_id r.command
        → s.discover_server r ≡ t.discover_server r
    pub review_descriptor :
        (r : Wire.ReviewRequest)
        → IsOwn p digest command_id r.scope
        → IsOwnCommand p digest command_id r.command
        → s.review_descriptor r ≡ t.review_descriptor r
    pub disable_descriptor :
        (r : Wire.DisableRequest)
        → IsOwn p digest command_id r.scope
        → IsOwnCommand p digest command_id r.command
        → s.disable_descriptor r ≡ t.disable_descriptor r
    pub create_grant :
        (r : Wire.CreateGrant)
        → IsOwn p digest command_id r.scope
        → IsOwnCommand p digest command_id r.command
        → s.create_grant r ≡ t.create_grant r
    pub revoke_grant :
        (r : Wire.RevokeGrant)
        → IsOwn p digest command_id r.scope
        → IsOwnCommand p digest command_id r.command
        → s.revoke_grant r ≡ t.revoke_grant r
    pub create_call :
        (r : Wire.CreateCall)
        → IsOwn p digest command_id r.scope
        → IsOwnCommand p digest command_id r.command
        → IsExact r
        → s.create_call r ≡ t.create_call r

module _ (env : Env) (s t : Stubs) (p : Principal) (digest : String) where
  create_call-Alike :
      (req : CreateToolCallRequest) (args : Option (List ℕ))
      → Alike env p digest req.command_id s t
      → create_call env s (identity (verified p digest) req.command_id) p req args
        ≡ create_call env t (identity (verified p digest) req.command_id) p req args
  unfolding create_call scope command identity principal_of call_request
  create_call-Alike req none alike = refl
  create_call-Alike req (some args) alike = elim (Bool-cases (ltb max_arguments (length args))) [
    | inl long ↦ rw (long, create_call) refl
    | inr fits ↦
        rw (fits, create_call)
          (ap (mapped (to_call env.unmarshal)) (
            alike.create_call
              (call_request env s (identity (verified p digest) req.command_id) p req args)
              (refl, refl, refl, refl) (refl, refl, refl, refl) (ground (arith, fits), refl)))
  ]

  review-Alike :
      (server_id : String) (req : ReviewRequest)
      → Alike env p digest req.command_id s t
      → Requests.review_descriptor env s
          (identity (verified p digest) req.command_id)
          p
          server_id
          req
        ≡ Requests.review_descriptor env t
            (identity (verified p digest) req.command_id)
            p
            server_id
            req
  unfolding Requests.review_descriptor scope command identity principal_of
  review-Alike server_id req alike = elim (Bool-cases (str_eq req.decision "disable")) [
    | inl disable ↦
        rw (disable, Requests.review_descriptor)
          (ap (mapped to_descriptor)
            (alike.disable_descriptor _ (refl, refl, refl, refl) (refl, refl, refl, refl)))
    | inr other ↦
        rw (other, Requests.review_descriptor)
          (ap (mapped to_descriptor)
            (alike.review_descriptor _ (refl, refl, refl, refl) (refl, refl, refl, refl)))
  ]

-- The API's response to an authenticated request on MCP's routes depends on MCP only through
-- messages that carry the caller's verified tenant, project, actor and roles and, for a command, the
-- caller's tenant and actor with the body's command id and the body's digest; a tool call's message
-- moreover carries at most 64 KiB of arguments under the digest of exactly those bytes. Two MCPs
-- that answer those alike give the same response, whatever they answer to other messages.
pub handle-Alike :
    (env : Env) (s t : Stubs) (p : Principal) (digest : String) (r : Request)
    → Alike env p digest (command_id_of r) s t
    → handle (client env s) (verified p digest) r ≡ handle (client env t) (verified p digest) r
unfolding handle command_id_of Requests.list_catalog Requests.list_grants Requests.get_grant
    Requests.get_revocation_progress Requests.get_tool_call Requests.reconcile_tool_call
    Requests.discover_server Requests.create_grant Requests.revoke_grant Requests.create_tool_call
    identity principal_of
handle-Alike env s t p digest (list_catalog params) alike =
    ap (λ a. answered catalog_page (respond 200 (λ b. b) (mapped (to_page to_descriptor) a)))
      (alike.list_catalog _ (refl, refl, refl, refl))
handle-Alike env s t p digest (list_grants params) alike =
    ap (λ a. answered grant_page (respond 200 (λ b. b) (mapped (to_page to_grant) a)))
      (alike.list_grants _ (refl, refl, refl, refl))
handle-Alike env s t p digest (get_grant grant_id) alike =
    ap (λ a. answered grant (respond 200 (λ b. b) (mapped progress_grant a)))
      (alike.get_revocation_progress _ (refl, refl, refl, refl))
handle-Alike env s t p digest (get_revocation_progress grant_id) alike =
    ap (λ a. answered progress (respond 200 (λ b. b) (mapped to_progress a)))
      (alike.get_revocation_progress _ (refl, refl, refl, refl))
handle-Alike env s t p digest (get_tool_call call_id) alike =
    ap (λ a. answered tool_call (respond 200 (λ b. b) (mapped (to_call env.unmarshal) a)))
      (alike.get_call _ (refl, refl, refl, refl))
handle-Alike env s t p digest (reconcile_tool_call call_id) alike =
    ap (λ a. answered tool_call (respond 200 (λ b. b) (mapped (to_call env.unmarshal) a)))
      (alike.reconcile_call _ (refl, refl, refl, refl))
handle-Alike env s t p digest (discover_server body) alike =
    ap (λ a. answered descriptor (respond 201 (λ b. b) (mapped to_descriptor a)))
      (alike.discover_server _ (refl, refl, refl, refl) (refl, refl, refl, refl))
handle-Alike env s t p digest (review_descriptor server_id body) alike =
    ap (λ a. answered descriptor (respond 200 (λ b. b) a))
      (review-Alike env s t p digest server_id body alike)
handle-Alike env s t p digest (create_grant body) alike =
    ap (λ a. answered grant (respond 201 (λ b. b) (mapped to_grant a)))
      (alike.create_grant _ (refl, refl, refl, refl) (refl, refl, refl, refl))
handle-Alike env s t p digest (revoke_grant grant_id body) alike =
    ap (λ a. answered grant (respond 202 (λ b. b) (mapped to_grant a)))
      (alike.revoke_grant _ (refl, refl, refl, refl) (refl, refl, refl, refl))
handle-Alike env s t p digest (create_tool_call body) alike =
    ap (λ a. answered tool_call (respond 202 (λ b. b) a))
      (create_call-Alike env s t p digest body (env.marshal body.arguments) alike)
