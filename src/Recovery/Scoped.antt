-- ===== src/Recovery/Scoped.antt =====
-- Whose recovery the API asks Control for.
use anvilkit_agent_api.Base.{
  String, Bool, true, false, ◌≡◌, refl, ap, ◌⊎◌, inl, inr, Option, none, some,
}
use anvilkit_agent_api.Base.Results.{Result, failed, ok}
use anvilkit_agent_api.Errors.{Failure}
use anvilkit_agent_api.Access.{Principal}
use anvilkit_agent_api.Control.Client.{scope, command, mapped}
use anvilkit_agent_api.Control.Handlers.{Context, principal_of, identity, Reply, respond}
use anvilkit_agent_api.Control.Scoped.{verified, IsOwn, IsOwnCommand}
use anvilkit_agent_api.Recovery.{
  RecoveryRun, FindingPage, Disposition, BeginBody, FindingParams, DisposeBody, BeginRequest,
  RunQuery, FindingQuery, DisposeRequest, Stubs,
}
use anvilkit_agent_api.Recovery.Client.{
  Env, recovery_scope_key, to_recovery_run, to_finding_page, to_disposition, begin_recovery,
  dispose_obligation, get_recovery, list_recovery_findings,
}
use anvilkit_agent_api.Recovery.Handlers.{
  created, handle_begin_recovery, handle_get_recovery, handle_list_recovery_findings,
  handle_dispose_obligation,
}

-- A request of one of the routes, with what the handler is given beside its context.
pub data Request : Type 0 where
  begin : BeginBody → Request
  get : String → Request
  list_findings : String → FindingParams → Request
  dispose : String → DisposeBody → Request

pub data Response : Type 0 where
  run : Reply RecoveryRun → Response
  findings : Reply FindingPage → Response
  disposition : Reply Disposition → Response

abbrev pub answered : {A : Type 0} → (A → Response) → Result Failure A → Result Failure Response
answered f (failed e) = failed e
answered f (ok a) = ok (f a)

-- The route's handler over the client.
unfoldable pub serve : Env → Stubs → Context → Request → Result Failure Response
unfolding handle_begin_recovery handle_get_recovery handle_list_recovery_findings
    handle_dispose_obligation
serve env s c (begin body) = answered run (handle_begin_recovery env s c body)
serve env s c (get run_id) = answered run (handle_get_recovery env s c run_id)
serve env s c (list_findings run_id params) =
    answered findings (handle_list_recovery_findings env s c run_id params)
serve env s c (dispose run_id body) =
    answered disposition (handle_dispose_obligation env s c run_id body)

unfoldable pub command_id_of : Request → String
command_id_of (begin body) = body.command_id
command_id_of (dispose run_id body) = body.command_id
command_id_of _ = ""

-- The request asks for every tenant.
unfoldable pub all_asked : Request → Option Bool
all_asked (begin body) = body.all_tenants
all_asked _ = none

module _ (p : Principal) (digest : String) (r : Request) where
  -- The recovered scope is the caller's tenant, or every tenant where the request asks for it.
  abbrev pub IsOwnKey : String → Type 0
  IsOwnKey key = (key ≡ p.tenant_id) ⊎ ((key ≡ "*") × (all_asked r ≡ some true))

  -- Two owners answer alike the messages that carry the caller's own scope, the command's own identity
  -- and an own recovery scope; what either answers to any other message is left open.
  pub record Alike (s t : Stubs) : Type 0 where
    pub begin_recovery :
        (m : BeginRequest)
        → IsOwn p digest (command_id_of r) m.scope
        → IsOwnCommand p digest (command_id_of r) m.command
        → IsOwnKey m.scope_key
        → s.begin_recovery m ≡ t.begin_recovery m
    pub get_recovery :
        (m : RunQuery)
        → IsOwn p digest (command_id_of r) m.scope
        → s.get_recovery m ≡ t.get_recovery m
    pub list_findings :
        (m : FindingQuery)
        → IsOwn p digest (command_id_of r) m.scope
        → s.list_findings m ≡ t.list_findings m
    pub dispose_obligation :
        (m : DisposeRequest)
        → IsOwn p digest (command_id_of r) m.scope
        → IsOwnCommand p digest (command_id_of r) m.command
        → s.dispose_obligation m ≡ t.dispose_obligation m

key-IsOwnKey :
    (p : Principal) (digest : String) (body : BeginBody) (all : Option Bool)
    → body.all_tenants ≡ all
    → IsOwnKey p digest (begin body) (recovery_scope_key p all)
unfolding recovery_scope_key all_asked
key-IsOwnKey p digest body none h = inl refl
key-IsOwnKey p digest body (some true) h = inr (refl, h)
key-IsOwnKey p digest body (some false) h = inl refl

-- The API's response to an authenticated request on the recovery routes depends on Control only
-- through messages that carry the caller's verified tenant, project, actor and roles and, for a
-- command, the caller's tenant and actor with the body's command id and the body's digest; the scope
-- that a recovery begins over is the caller's own tenant, or every tenant where the body asks for it.
-- Two Controls that answer those alike give the same response, whatever they answer to others.
pub recovery-Alike :
    (env : Env) (s t : Stubs) (p : Principal) (digest : String) (r : Request)
    → Alike p digest r s t
    → serve env s (verified p digest) r ≡ serve env t (verified p digest) r
unfolding serve begin_recovery dispose_obligation get_recovery list_recovery_findings command_id_of
    scope command identity principal_of
recovery-Alike env s t p digest (begin body) alike =
    ap (λ a. answered run (created (mapped (λ v. (to_recovery_run v.0, v.1)) a)))
      (alike.begin_recovery _ (refl, refl, refl, refl) (refl, refl, refl, refl)
        (key-IsOwnKey p digest body body.all_tenants refl))
recovery-Alike env s t p digest (get run_id) alike =
    ap (λ a. answered run (respond 200 (λ v. v) (mapped to_recovery_run a)))
      (alike.get_recovery _ (refl, refl, refl, refl))
recovery-Alike env s t p digest (list_findings run_id params) alike =
    ap (λ a. answered findings (respond 200 (λ v. v) (mapped to_finding_page a)))
      (alike.list_findings _ (refl, refl, refl, refl))
recovery-Alike env s t p digest (dispose run_id body) alike =
    ap (λ a. answered disposition (created (mapped (λ v. (to_disposition run_id v.0, v.1)) a)))
      (alike.dispose_obligation _ (refl, refl, refl, refl) (refl, refl, refl, refl))
