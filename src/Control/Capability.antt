-- ===== src/Control/Capability.antt =====
-- Where an upload capability comes from.
use anvilkit_agent_api.Base.{
  String, ℕ, ◌≡◌, refl, sym, ap, ◌∙◌, Option, none, some, false, inl, inr, Bool-cases,
}
use mathlib.Core.Option.{some-injective}
use anvilkit_agent_api.Base.Int.{ℤ}
use anvilkit_agent_api.Base.Text.{is_empty}
use anvilkit_agent_api.Base.Results.{Result, failed, ok}
use anvilkit_agent_api.Errors.{Failure}
use anvilkit_agent_api.Errors
use anvilkit_agent_api.Errors.Owner.{map_failed}
use anvilkit_agent_api.Control.{Answer, opt_str}
use anvilkit_agent_api.Control.Wire
use anvilkit_agent_api.Control.Wire.{Stubs, Called}
use anvilkit_agent_api.Control.Client.{scope, mapped, to_transfer}
use anvilkit_agent_api.Control.Requests.{client, begin_transfer, finalize_transfer}
use anvilkit_agent_api.Control.Public
use anvilkit_agent_api.Control.Public.{transfer_to_public}
use anvilkit_agent_api.Control.Handlers.{
  Context, principal_of, Reply, respond, BeginTransferBody, handle_begin_transfer,
  handle_finalize_transfer, handle_create_operation, handle_get_operation, handle_submit_command,
  handle_get_command, handle_create_preparation, handle_submit_answer,
}
use anvilkit_agent_api.Control.Scoped.{
  Request, Response, operation, receipt, answer, transfer, answered, serve, create_operation_route,
  get_operation_route, submit_command_route, get_command_route, create_preparation_route,
  submit_answer_route, begin_transfer_route, finalize_transfer_route,
}

answered-ok :
    {A : Type 0} (f : A → Response) (x : Result Failure A) (y : Response)
    → answered f x ≡ ok y
    → (a : A) × (x ≡ ok a) × (f a ≡ y)
answered-ok f (failed e) y h = let stop : failed e ≡ ok y = h in cc
answered-ok f (ok a) y h = (a, refl, cc)

pub respond-ok :
    {A B : Type 0} (status : ℕ) (render : A → B) (x : Answer A) (y : Reply B)
    → respond status render x ≡ ok y
    → (a : A) × (x ≡ ok a) × (render a ≡ y.body)
respond-ok status render (failed e) y h = let stop : failed (Errors.control e) ≡ ok y = h in cc
respond-ok status render (ok a) y h =
    let same : record { status = status; body = render a } ≡ y = cc in
    (a, refl, ap (λ r. r.body) same)

pub mapped-ok :
    {A B : Type 0} (read : A → B) (x : Called A) (y : B)
    → mapped read x ≡ ok y
    → (a : A) × (x ≡ ok a) × (read a ≡ y)
mapped-ok read (failed e) y h = let stop : failed (map_failed e "control") ≡ ok y = h in cc
mapped-ok read (ok a) y h = (a, refl, cc)

opt_str-some : (s : String) → is_empty s ≡ false → opt_str s ≡ some s
unfolding opt_str
opt_str-some s given = rw given refl

-- The capability of a public transfer is the URL of Control's message.
to_transfer-url :
    (t : Wire.Transfer) (u : Option Wire.Capability) (url : String)
    → (transfer_to_public (to_transfer t u)).upload_capability ≡ some url
    → (w : Wire.Capability) × (u ≡ some w) × (w.url ≡ url)
unfolding transfer_to_public to_transfer opt_str
to_transfer-url t none url h = let stop : none ≡ some url = h in cc
to_transfer-url t (some w) url h = elim (Bool-cases (is_empty w.url)) [
  | inl empty ↦ let stop : none ≡ some url = rw empty at h in cc
  | inr given ↦ (w, refl, some-injective w.url url (sym (opt_str-some w.url given) ∙ rw given at h))
]

-- What Control has answered to the begun transfer: it has issued the URL to the caller.
pub record IsIssued (s : Stubs) (c : Context) (url : String) : Type 0 where
  pub message : Wire.BeginTransfer
  pub begun : Wire.Transfer
  pub capability : Wire.Capability
  pub tenant : message.scope.tenant_id ≡ (principal_of c).tenant_id
  pub actor : message.scope.actor_id ≡ (principal_of c).actor_id
  pub issued : s.begin_transfer message ≡ ok (begun, some capability)
  pub same : capability.url ≡ url

begin-IsIssued :
    (s : Stubs) (c : Context) (now window : ℤ) (body : BeginTransferBody)
    (reply : Reply Public.Transfer) (url : String)
    → handle_begin_transfer (client s) c now window body ≡ ok reply
    → reply.body.upload_capability ≡ some url
    → IsIssued s c url
unfolding handle_begin_transfer begin_transfer scope
begin-IsIssued s c now window body reply url h k =
    let (view, x, e) = respond-ok 201 transfer_to_public _ reply h in
    let (r, called, read) = mapped-ok (λ r. to_transfer r.0 r.1) _ view x in
    let (w, has, same) = to_transfer-url r.0 r.1 url (
      ap (λ v. (transfer_to_public v).upload_capability) read
      ∙ ap (λ b. b.upload_capability) e
      ∙ k) in
    record {
      message = _;
      begun = r.0;
      capability = w;
      tenant = refl;
      actor = refl;
      issued = called ∙ ap (λ u. ok (r.0, u)) has;
      same = same;
    }

finalize_none :
    (s : Stubs) (c : Context) (command_id handle version : String) (reply : Reply Public.Transfer)
    → handle_finalize_transfer (client s) c command_id handle version ≡ ok reply
    → reply.body.upload_capability ≡ none
unfolding handle_finalize_transfer finalize_transfer transfer_to_public to_transfer
finalize_none s c command_id handle version reply h =
    let (view, x, e) = respond-ok 200 transfer_to_public _ reply h in
    let (t, called, read) = mapped-ok (λ t. to_transfer t none) _ view x in
    sym (ap (λ b. b.upload_capability) e)
    ∙ sym (ap (λ v. (transfer_to_public v).upload_capability) read)

module _ (s : Stubs) (c : Context) (reply : Reply Public.Transfer) (url : String) where
  abbrev pub IsBegun : Request → Type 0
  IsBegun r =
      (now : ℤ) × (window : ℤ) × (body : BeginTransferBody) × (r
        ≡ begin_transfer_route now window body)
      × IsIssued s c url

  not_transfer :
      {A : Type 0} (r : Request) (f : A → Response) (x : Result Failure A)
      → ((a : A) → f a ≡ transfer reply → ⊥)
      → answered f x ≡ ok (transfer reply)
      → IsBegun r
  not_transfer r f x other h =
      let (a, e, same) = answered-ok f x (transfer reply) h in absurd (other a same)

  -- Of the routes on Control, only one that begins a transfer answers with an upload capability, and it is
  -- the URL of the capability that Control issued in its answer to a message in the caller's
  -- tenant and name; the response to a finalized transfer carries none, whatever Control answers.
  pub capability_issued :
      (r : Request)
      → serve s c r ≡ ok (transfer reply)
      → reply.body.upload_capability ≡ some url
      → IsBegun r
  unfolding serve
  capability_issued (create_operation_route body) h k =
      not_transfer _ operation (handle_create_operation (client s) c body) (λ a e. cc) h
  capability_issued (get_operation_route id) h k =
      not_transfer _ operation (handle_get_operation (client s) c id) (λ a e. cc) h
  capability_issued (submit_command_route id body) h k =
      not_transfer _ receipt (handle_submit_command (client s) c id body) (λ a e. cc) h
  capability_issued (get_command_route id command_id) h k =
      not_transfer _ receipt (handle_get_command (client s) c id command_id) (λ a e. cc) h
  capability_issued (create_preparation_route profile subject body) h k =
      not_transfer _ operation (handle_create_preparation (client s) c profile subject body)
        (λ a e. cc) h
  capability_issued (submit_answer_route id body) h k =
      not_transfer _ answer (handle_submit_answer (client s) c id body) (λ a e. cc) h
  capability_issued (begin_transfer_route now window body) h k =
      let (a, x, e) =
        answered-ok transfer (handle_begin_transfer (client s) c now window body) (transfer reply)
          h in
      let same : a ≡ reply = cc in
      (now, window, body, refl, begin-IsIssued s c now window body reply url (x ∙ ap ok same) k)
  capability_issued (finalize_transfer_route command_id handle version) h k =
      let (a, x, e) =
        answered-ok transfer (handle_finalize_transfer (client s) c command_id handle version)
          (transfer reply) h in
      let same : a ≡ reply = cc in
      let stop : none ≡ some url =
        sym (finalize_none s c command_id handle version reply (x ∙ ap ok same)) ∙ k in
      cc
