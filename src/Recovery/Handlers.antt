-- ===== src/Recovery/Handlers.antt =====
-- The handlers of the recovery routes (internal/transport/http/handlers.go) over the client.
use anvilkit_agent_api.Base.{String, Bool, true, false}
use anvilkit_agent_api.Base.Results.{Result, failed, ok}
use anvilkit_agent_api.Errors.{Failure}
use anvilkit_agent_api.Errors
use anvilkit_agent_api.Control.{Answer}
use anvilkit_agent_api.Control.Handlers.{Context, principal_of, identity, Reply, respond}
use anvilkit_agent_api.Recovery.{
  RecoveryRun, FindingPage, Disposition, BeginBody, FindingParams, DisposeBody, Stubs,
}
use anvilkit_agent_api.Recovery.Client.{
  Env, begin_recovery, dispose_obligation, get_recovery, list_recovery_findings,
}

-- 200 with the record of a command that had been applied already, 201 with a new one.
abbrev pub created : {A : Type 0} → Answer (A × Bool) → Result Failure (Reply A)
created (failed e) = failed (Errors.control e)
created (ok (a, true)) = ok (record { status = 200; body = a })
created (ok (a, false)) = ok (record { status = 201; body = a })

module _ (env : Env) (stubs : Stubs) (c : Context) where
  unfoldable pub handle_begin_recovery : BeginBody → Result Failure (Reply RecoveryRun)
  unfolding principal_of identity
  handle_begin_recovery body =
      created (begin_recovery env stubs (identity c body.command_id) (principal_of c) body)

  unfoldable pub handle_get_recovery : String → Result Failure (Reply RecoveryRun)
  unfolding principal_of
  handle_get_recovery run_id = respond 200 (λ r. r) (get_recovery env stubs (principal_of c) run_id)

  unfoldable pub handle_list_recovery_findings :
      String → FindingParams → Result Failure (Reply FindingPage)
  unfolding principal_of
  handle_list_recovery_findings run_id params =
      respond 200 (λ r. r) (list_recovery_findings env stubs (principal_of c) run_id params)

  unfoldable pub handle_dispose_obligation :
      String → DisposeBody → Result Failure (Reply Disposition)
  unfolding principal_of identity
  handle_dispose_obligation run_id body =
      created
        (dispose_obligation env stubs (identity c body.command_id) (principal_of c) run_id body)
