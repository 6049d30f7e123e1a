-- ===== src/Preview/Handlers.antt =====
-- The routes of the previews and the sources (internal/transport/http/handlers.go: GetPreview,
-- ReadPreviewArtifact, ReadSource; internal/adapters/control/preview.go: toPreview, preview,
-- GetPreview), for a caller: `owner_for` is Control as the caller's reads see it. The stubs of
-- Control's PreviewService are parameters, as are the read capability and its fetch.
use text.Mathlib.Text.{◌==◌ as str_eq}
use anvilkit_agent_api.Base.{
  ℕ, String, Option, none, some, List, [], ◌∷◌, map, length, if◌then◌else◌,
}
use anvilkit_agent_api.Base.Int.{ℤ}
use anvilkit_agent_api.Base.Results.{◌>>=◌}
use anvilkit_agent_api.Base.Results
use anvilkit_agent_api.Errors.{Failure}
use anvilkit_agent_api.Errors
use anvilkit_agent_api.Errors.Owner.{OwnerError}
use anvilkit_agent_api.Access.{Principal}
use anvilkit_agent_api.Control
use anvilkit_agent_api.Control.{opt_str}
use anvilkit_agent_api.Control.Wire.{Stubs, Called, Operation}
use anvilkit_agent_api.Control.Client.{scope, enum_word, as_time, mapped}
use anvilkit_agent_api.Control.Handlers.{Context, principal_of, Reply, respond}
use anvilkit_agent_api.Release.{authorize}
use anvilkit_agent_api.Preview.{
  Artifact, Preview, Source, Answer, refused, answered, Fetched, Owner, Result, denied, served,
  PreviewBytes, SourceBytes, media_type_of, read_preview_artifact, read_source,
}

-- controlv1.Preview: the artifacts, and what the view shows beside them.
pub record Recorded : Type 0 where
  pub operation_id : String
  pub subject_digest : String
  pub base_revision : String
  pub state : String
  pub source_digest : String
  pub build_profile_id : String
  pub host_profile_id : String
  pub revision : String
  pub updated_at : Option ℤ
  pub source_revision : Option String
  pub current_revision : Option String
  pub failure_code : Option String
  pub artifacts : Preview

pub record PreviewArtifact : Type 0 where
  pub digest : String
  pub size_bytes : String
  pub media_type : String

pub record PreviewView : Type 0 where
  pub operation_id : String
  pub subject_digest : String
  pub base_revision : String
  pub state : String
  pub source_digest : String
  pub build_profile_id : String
  pub host_profile_id : String
  pub revision : String
  pub updated_at : ℤ
  pub source_revision : Option String
  pub current_revision : Option String
  pub failure_code : Option String
  pub build : Option PreviewArtifact
  pub styles : List PreviewArtifact

abbrev to_artifact : Artifact → PreviewArtifact
to_artifact a = record {
  digest = a.digest;
  size_bytes = a.size_bytes;
  media_type = media_type_of a.class;
}

abbrev to_build : Option Artifact → Option PreviewArtifact
to_build none = none
to_build (some a) = some (to_artifact a)

unfoldable pub to_preview : Recorded → PreviewView
unfolding enum_word
to_preview r = record {
  operation_id = r.operation_id;
  subject_digest = r.subject_digest;
  base_revision = r.base_revision;
  state = enum_word r.state "PREVIEW_STATE_";
  source_digest = r.source_digest;
  build_profile_id = r.build_profile_id;
  host_profile_id = r.host_profile_id;
  revision = r.revision;
  updated_at = as_time r.updated_at;
  source_revision = r.source_revision;
  current_revision = r.current_revision;
  failure_code = r.failure_code;
  build = to_build r.artifacts.build;
  styles = map to_artifact r.artifacts.styles;
}

-- A tenant's preview, source and artifacts (by handle and operation), and what Go's parts answer; D is
-- the capability of a download.
pub record Reads (D : Type 0) : Type 0 where
  pub get_preview : String → String → Called Recorded
  pub get_source : String → String → Called Source
  pub read_artifact : String → String → String → Called D
  pub fetch : D → Fetched
  pub parse_int : String → Option ℤ
  pub digest_of : List ℕ → String
  pub decimal : ℕ → String

abbrev pub error_of : Called Operation → Option OwnerError
error_of (Results.failed e) = some e
error_of (Results.ok v) = none

abbrev pub answer_of : {A B : Type 0} → (A → B) → Called A → Answer B
answer_of f (Results.failed e) = refused e
answer_of f (Results.ok a) = answered (f a)

-- agentapi.ReadSource200ResponseHeaders
pub record SourceHeaders : Type 0 where
  pub lineage : String
  pub digest : String
  pub revision : Option String

-- How the bytes of a response are sent.
pub record Sent : Type 0 where
  pub content_type : String
  pub content_length : ℕ
  pub headers : List (String × String)
  pub source : Option SourceHeaders
  pub body : List ℕ

abbrev pub replied : {A : Type 0} → (A → Sent) → Result A → Results.Result Failure (Reply Sent)
replied f (denied e) = Results.failed (Errors.control e)
replied f (served a) = Results.ok (record { status = 200; body = f a })

unfoldable pub send_preview : PreviewBytes → Sent
send_preview b = record {
  content_type = if str_eq b.media_type "text/css" then "text/css" else "text/javascript";
  content_length = length b.body;
  headers = ("Cache-Control", "no-store") ∷ ("X-Content-Type-Options", "nosniff") ∷ [];
  source = none;
  body = b.body;
}

unfoldable pub send_source : SourceBytes → Sent
unfolding opt_str
send_source b = record {
  content_type = "application/x-tar";
  content_length = length b.body;
  headers = ("Cache-Control", "no-store") ∷ [];
  source = some (record { lineage = b.lineage; digest = b.digest; revision = opt_str b.revision });
  body = b.body;
}

module _ {D : Type 0} (stubs : Stubs) (reads : Reads D) where
  unfoldable pub owner_for : Principal → Owner D
  unfolding scope
  owner_for p = record {
    get_operation = λ operation_id.
        error_of (stubs.get_operation (record { scope = scope p; operation_id = operation_id }));
    get_preview =
        λ operation_id. answer_of (λ r. r.artifacts) (reads.get_preview p.tenant_id operation_id);
    get_source = λ operation_id. answer_of (λ s. s) (reads.get_source p.tenant_id operation_id);
    read_artifact = λ handle operation_id.
        answer_of (λ d. d) (reads.read_artifact p.tenant_id handle operation_id);
    fetch = reads.fetch;
    parse_int = reads.parse_int;
    digest_of = reads.digest_of;
    decimal = reads.decimal;
  }

  unfoldable pub get_preview : Principal → String → Control.Answer PreviewView
  unfolding authorize to_preview
  get_preview p operation_id = authorize stubs p operation_id >>= λ _.
      mapped to_preview (reads.get_preview p.tenant_id operation_id)

  unfoldable pub handle_get_preview : Context → String → Results.Result Failure (Reply PreviewView)
  unfolding principal_of get_preview
  handle_get_preview c operation_id =
      respond 200 (λ v. v) (get_preview (principal_of c) operation_id)

  unfoldable pub handle_read_preview_artifact :
      Context → String → String → Results.Result Failure (Reply Sent)
  unfolding principal_of owner_for send_preview
  handle_read_preview_artifact c operation_id digest =
      replied send_preview (read_preview_artifact (owner_for (principal_of c)) operation_id digest)

  unfoldable pub handle_read_source : Context → String → Results.Result Failure (Reply Sent)
  unfolding principal_of owner_for send_source
  handle_read_source c operation_id =
      replied send_source (read_source (owner_for (principal_of c)) operation_id)
