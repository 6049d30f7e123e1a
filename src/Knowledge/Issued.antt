-- ===== src/Knowledge/Issued.antt =====
-- Where the capability of a source upload comes from (internal/adapters/knowledge/client.go,
-- BeginSourceUpload, and its handler).
use anvilkit_agent_api.Base.{◌≡◌, refl, sym, ap, ◌∙◌}
use anvilkit_agent_api.Base.Results.{Result, failed, ok}
use anvilkit_agent_api.Errors.{Failure}
use anvilkit_agent_api.Errors.Owner.{map_failed}
use anvilkit_agent_api.Control.Wire.{Called}
use anvilkit_agent_api.Control.Capability.{respond-ok}
use anvilkit_agent_api.Control.Handlers.{Context, principal_of, Reply}
use anvilkit_agent_api.Knowledge.{BeginUpload, SourceUpload}
use anvilkit_agent_api.Knowledge.Wire
use anvilkit_agent_api.Knowledge.Wire.{Stubs}
use anvilkit_agent_api.Knowledge.Client.{scope, mapped, to_upload}
use anvilkit_agent_api.Knowledge.Requests
use anvilkit_agent_api.Knowledge.Requests.{Env, client}
use anvilkit_agent_api.Knowledge.Handlers.{
  Request, Response, answered, handle, list_sources, register_source, get_source, delete_source,
  replace_source_access, search, begin_source_upload, create_snapshot, get_snapshot,
  recall_memories, list_memories, propose_memory, decide_memory, source_page, source, found, upload,
  snapshot, recalled, fact_page, fact,
}

answered-ok :
    {A : Type 0} (f : A → Response) (x : Result Failure A) (y : Response)
    → answered f x ≡ ok y
    → (a : A) × (x ≡ ok a) × (f a ≡ y)
answered-ok f (failed e) y h = let stop : failed e ≡ ok y = h in cc
answered-ok f (ok a) y h = (a, refl, cc)

mapped-ok :
    {A B : Type 0} (read : A → B) (x : Called A) (y : B)
    → mapped read x ≡ ok y
    → (a : A) × (x ≡ ok a) × (read a ≡ y)
mapped-ok read (failed e) y h = let stop : failed (map_failed e "knowledge") ≡ ok y = h in cc
mapped-ok read (ok a) y h = (a, refl, cc)

-- Knowledge has issued the capability for what the body declares, to the caller.
pub record IsIssued (s : Stubs) (c : Context) (body : BeginUpload) (v : SourceUpload) : Type 0 where
  pub message : Wire.BeginUpload
  pub issued : Wire.Upload
  pub answer : s.begin_upload message ≡ ok issued
  pub tenant : message.scope.tenant_id ≡ (principal_of c).tenant_id
  pub project : message.scope.project_id ≡ (principal_of c).project_id
  pub actor : message.scope.actor_id ≡ (principal_of c).actor_id
  pub content_digest : message.content_digest ≡ body.content_digest
  pub size_bytes : message.size_bytes ≡ body.size_bytes
  pub media_type : message.media_type ≡ body.media_type
  pub url : v.upload_url ≡ issued.upload_url
  pub method : v.upload_method ≡ issued.upload_method
  pub headers : v.upload_headers ≡ issued.upload_headers

module _ (env : Env) (s : Stubs) (c : Context) (reply : Reply SourceUpload) where
  begun-IsIssued :
      (body : BeginUpload)
      → handle (client env s) c (begin_source_upload body) ≡ ok (upload reply)
      → IsIssued s c body reply.body
  unfolding handle Requests.begin_source_upload scope to_upload
  begun-IsIssued body h =
      let (a, x, e) = answered-ok upload _ (upload reply) h in
      let same : a ≡ reply = cc in
      let (view, y, shown) = respond-ok 201 (λ b. b) _ reply (x ∙ ap ok same) in
      let (u, called, read) = mapped-ok to_upload _ view y in
      let v : to_upload u ≡ reply.body = read ∙ shown in
      record {
        message = _;
        issued = u;
        answer = called;
        tenant = refl;
        project = refl;
        actor = refl;
        content_digest = refl;
        size_bytes = refl;
        media_type = refl;
        url = sym (ap (λ w. w.upload_url) v);
        method = sym (ap (λ w. w.upload_method) v);
        headers = sym (ap (λ w. w.upload_headers) v);
      }

  abbrev pub IsBegun : Request → Type 0
  IsBegun r = (body : BeginUpload) × (r ≡ begin_source_upload body) × IsIssued s c body reply.body

  not_upload :
      {A : Type 0} (r : Request) (f : A → Response) (x : Result Failure A)
      → ((a : A) → f a ≡ upload reply → ⊥)
      → answered f x ≡ ok (upload reply)
      → IsBegun r
  not_upload r f x other h =
      let (a, e, same) = answered-ok f x (upload reply) h in absurd (other a same)

  -- Of the routes on Knowledge, only one that begins an upload answers with an upload capability, and
  -- its URL, method and headers are those that Knowledge issued in its answer to a message under the
  -- caller's own tenant, project and actor, for the digest, the size and the media type that the body
  -- declares.
  pub upload_issued : (r : Request) → handle (client env s) c r ≡ ok (upload reply) → IsBegun r
  unfolding handle
  upload_issued (begin_source_upload body) h = (body, refl, begun-IsIssued body h)
  upload_issued (list_sources cursor limit) h = not_upload _ source_page _ (λ a e. cc) h
  upload_issued (register_source body) h = not_upload _ source _ (λ a e. cc) h
  upload_issued (get_source id) h = not_upload _ source _ (λ a e. cc) h
  upload_issued (delete_source command_id id revision) h = not_upload _ source _ (λ a e. cc) h
  upload_issued (replace_source_access id body) h = not_upload _ source _ (λ a e. cc) h
  upload_issued (search body) h = not_upload _ found _ (λ a e. cc) h
  upload_issued (create_snapshot body) h = not_upload _ snapshot _ (λ a e. cc) h
  upload_issued (get_snapshot id) h = not_upload _ snapshot _ (λ a e. cc) h
  upload_issued (recall_memories body) h = not_upload _ recalled _ (λ a e. cc) h
  upload_issued (list_memories params) h = not_upload _ fact_page _ (λ a e. cc) h
  upload_issued (propose_memory body) h = not_upload _ fact _ (λ a e. cc) h
  upload_issued (decide_memory id body) h = not_upload _ fact _ (λ a e. cc) h
