-- ===== src/Control/Scoped.antt =====
-- Whose requests the API makes on Control: a handler over the client.
use anvilkit_agent_api.Base.{String, ◌≡◌, refl, ap, Option, none, some}
use anvilkit_agent_api.Base.Int.{ℤ}
use anvilkit_agent_api.Base.Results.{Result, failed, ok}
use anvilkit_agent_api.Errors.{Failure}
use anvilkit_agent_api.Access.{Principal}
use anvilkit_agent_api.Control.{AnswerReceipt}
use anvilkit_agent_api.Control.Wire
use anvilkit_agent_api.Control.Wire.{Stubs}
use anvilkit_agent_api.Control.Client.{
  scope, command, mapped, to_view, to_receipt, to_answer, to_transfer,
}
use anvilkit_agent_api.Control.Requests.{
  client, create_operation, create_preparation, submit_answer, submit_command, begin_transfer,
  finalize_transfer, get_operation, get_command,
}
use anvilkit_agent_api.Control.Public
use anvilkit_agent_api.Control.Public.{view_to_public, receipt_to_public, transfer_to_public}
use anvilkit_agent_api.Control.Handlers.{
  Context, principal_of, identity, Reply, respond, CreateOperationBody, SubmitCommandBody,
  PreparationBody, AnswerBody, BeginTransferBody, handle_create_operation, handle_get_operation,
  handle_submit_command, handle_get_command, handle_create_preparation, handle_submit_answer,
  handle_begin_transfer, handle_finalize_transfer,
}

-- A request of one of the routes, with what the handler is given beside its context.
pub data Request : Type 0 where
  create_operation_route : CreateOperationBody → Request
  get_operation_route : String → Request
  submit_command_route : String → SubmitCommandBody → Request
  get_command_route : String → String → Request
  create_preparation_route : String → Option String → PreparationBody → Request
  submit_answer_route : String → AnswerBody → Request
  begin_transfer_route : ℤ → ℤ → BeginTransferBody → Request
  finalize_transfer_route : String → String → String → Request

pub data Response : Type 0 where
  operation : Reply Public.Operation → Response
  receipt : Reply Public.Receipt → Response
  answer : Reply AnswerReceipt → Response
  transfer : Reply Public.Transfer → Response

abbrev pub answered : {A : Type 0} → (A → Response) → Result Failure A → Result Failure Response
answered f (failed e) = failed e
answered f (ok a) = ok (f a)

-- The route's handler over the client.
unfoldable pub serve : Stubs → Context → Request → Result Failure Response
unfolding handle_create_operation handle_get_operation handle_submit_command handle_get_command
    handle_create_preparation handle_submit_answer handle_begin_transfer handle_finalize_transfer
serve s c (create_operation_route body) =
    answered operation (handle_create_operation (client s) c body)
serve s c (get_operation_route id) = answered operation (handle_get_operation (client s) c id)
serve s c (submit_command_route id body) =
    answered receipt (handle_submit_command (client s) c id body)
serve s c (get_command_route id command_id) =
    answered receipt (handle_get_command (client s) c id command_id)
serve s c (create_preparation_route profile subject body) =
    answered operation (handle_create_preparation (client s) c profile subject body)
serve s c (submit_answer_route id body) =
    answered answer (handle_submit_answer (client s) c id body)
serve s c (begin_transfer_route now window body) =
    answered transfer (handle_begin_transfer (client s) c now window body)
serve s c (finalize_transfer_route command_id handle version) =
    answered transfer (handle_finalize_transfer (client s) c command_id handle version)

-- The command that the request's body names; a read has none.
unfoldable pub command_id_of : Request → String
command_id_of (create_operation_route body) = body.command_id
command_id_of (submit_command_route id body) = body.command_id
command_id_of (create_preparation_route profile subject body) = body.command_id
command_id_of (submit_answer_route id body) = body.command_id
command_id_of (begin_transfer_route now window body) = body.command_id
command_id_of (finalize_transfer_route command_id handle version) = command_id
command_id_of _ = ""

-- The context of an authenticated request whose body has a digest.
abbrev pub verified : Principal → String → Context
verified p digest = record { principal = some p; digest = some digest }

module _ (p : Principal) (digest command_id : String) where
  abbrev pub IsOwn : Wire.Scope → Type 0
  IsOwn s =
      (s.tenant_id ≡ p.tenant_id)
      × (s.project_id ≡ p.project_id)
      × (s.actor_id ≡ p.actor_id)
      × (s.roles ≡ p.roles)

  abbrev pub IsOwnCommand : Wire.Command → Type 0
  IsOwnCommand k =
      (k.tenant_id ≡ p.tenant_id)
      × (k.command_id ≡ command_id)
      × (k.actor_id ≡ p.actor_id)
      × (k.request_digest ≡ digest)

  -- Two owners answer alike the messages that carry the caller's own scope, and the command's own
  -- identity; what either answers to any other message is left open. FinalizeTransfer's message has
  -- no scope.
  pub record Alike (s t : Stubs) : Type 0 where
    pub create_operation :
        (r : Wire.CreateOperation)
        → IsOwn r.scope
        → IsOwnCommand r.command
        → s.create_operation r ≡ t.create_operation r
    pub get_operation :
        (r : Wire.GetOperation) → IsOwn r.scope → s.get_operation r ≡ t.get_operation r
    pub submit_command :
        (r : Wire.SubmitCommand)
        → IsOwn r.scope
        → IsOwnCommand r.command
        → s.submit_command r ≡ t.submit_command r
    pub get_command : (r : Wire.GetCommand) → IsOwn r.scope → s.get_command r ≡ t.get_command r
    pub submit_answer :
        (r : Wire.SubmitAnswer)
        → IsOwn r.scope
        → IsOwnCommand r.command
        → s.submit_answer r ≡ t.submit_answer r
    pub begin_transfer :
        (r : Wire.BeginTransfer)
        → IsOwn r.scope
        → IsOwnCommand r.command
        → s.begin_transfer r ≡ t.begin_transfer r
    pub finalize_transfer :
        (r : Wire.FinalizeTransfer)
        → IsOwnCommand r.command
        → s.finalize_transfer r ≡ t.finalize_transfer r

-- The API's response to an authenticated request of these routes depends on Control only through
-- messages of the caller's own. A message of a command carries the caller's verified tenant and actor
-- with the body's command id and the body's digest; every message but that of a finalized transfer,
-- which is its command's alone, carries the caller's verified tenant, project, actor and roles. Two
-- Controls that answer those alike give the same response, whatever they answer to others.
pub serve-Alike :
    (s t : Stubs) (p : Principal) (digest : String) (r : Request)
    → Alike p digest (command_id_of r) s t
    → serve s (verified p digest) r ≡ serve t (verified p digest) r
unfolding serve create_operation create_preparation submit_answer submit_command begin_transfer
    finalize_transfer get_operation get_command command_id_of scope command identity principal_of
serve-Alike s t p digest (create_operation_route body) alike =
    ap (λ a. answered operation (respond 202 view_to_public (mapped to_view a)))
      (alike.create_operation _ (refl, refl, refl, refl) (refl, refl, refl, refl))
serve-Alike s t p digest (get_operation_route id) alike =
    ap (λ a. answered operation (respond 200 view_to_public (mapped to_view a)))
      (alike.get_operation _ (refl, refl, refl, refl))
serve-Alike s t p digest (submit_command_route id body) alike =
    ap (λ a. answered receipt (respond 202 receipt_to_public (mapped to_receipt a)))
      (alike.submit_command _ (refl, refl, refl, refl) (refl, refl, refl, refl))
serve-Alike s t p digest (get_command_route id command_id) alike =
    ap (λ a. answered receipt (respond 200 receipt_to_public (mapped to_receipt a)))
      (alike.get_command _ (refl, refl, refl, refl))
serve-Alike s t p digest (create_preparation_route profile none body) alike = refl
serve-Alike s t p digest (create_preparation_route profile (some subject) body) alike =
    ap (λ a. answered operation (respond 202 view_to_public (mapped to_view a)))
      (alike.create_operation _ (refl, refl, refl, refl) (refl, refl, refl, refl))
serve-Alike s t p digest (submit_answer_route id body) alike =
    ap (λ a. answered answer (respond 202 (λ r. r) (mapped to_answer a)))
      (alike.submit_answer _ (refl, refl, refl, refl) (refl, refl, refl, refl))
serve-Alike s t p digest (begin_transfer_route now window body) alike =
    ap
      (λ a.
        answered transfer (respond 201 transfer_to_public (mapped (λ r. to_transfer r.0 r.1) a)))
      (alike.begin_transfer _ (refl, refl, refl, refl) (refl, refl, refl, refl))
serve-Alike s t p digest (finalize_transfer_route command_id handle version) alike =
    ap
      (λ a. answered transfer (respond 200 transfer_to_public (mapped (λ v. to_transfer v none) a)))
      (alike.finalize_transfer _ (refl, refl, refl, refl))
