-- ===== src/Preview/HandlersExamples.antt =====
-- The routes over a Control with one preview of a style and one source.
use text.Mathlib.Text.{◌==◌ as str_eq}
use anvilkit_agent_api.Base.{String, ◌≡◌, refl, none, some, [], ◌∷◌, length, ◌==◌, if◌then◌else◌}
use anvilkit_agent_api.Base.Int.{pos}
use anvilkit_agent_api.Base.Results
use anvilkit_agent_api.Errors.Owner.{no_status}
use anvilkit_agent_api.Control.{opt_str}
use anvilkit_agent_api.Control.Wire.{Stubs, Operation}
use anvilkit_agent_api.Control.Handlers.{Context, principal_of, Reply}
use anvilkit_agent_api.Preview.{
  Artifact, Source, response, max_preview_artifact, max_source_archive, media_type_of, artifacts_of,
  last_of, check_bytes, read_fetched, read_verified, read_preview_artifact, read_source,
}
use anvilkit_agent_api.Preview.Verified.{IsRecorded}
use anvilkit_agent_api.Preview.Handlers.{
  Recorded, Reads, Sent, owner_for, handle_read_preview_artifact, handle_read_source,
}
use anvilkit_agent_api.Preview.Sent.{
  IsReadable, handle_read_preview_artifact_lem, handle_read_source_lem,
}

abbrev style : Artifact
style = record { handle = "h"; digest = "sha256:two"; size_bytes = "2"; class = "css" }

abbrev listed : Recorded
listed = record {
  operation_id = "op";
  subject_digest = "d";
  base_revision = "1";
  state = "PREVIEW_STATE_READY";
  source_digest = "s";
  build_profile_id = "b";
  host_profile_id = "h";
  revision = "2";
  updated_at = none;
  source_revision = none;
  current_revision = none;
  failure_code = none;
  artifacts = record { build = none; styles = style ∷ [] };
}

abbrev archive : Source
archive = record { archive = style; lineage = "l1"; revision = "7" }

abbrev reads : Reads String
reads = record {
  get_preview = λ tenant operation. Results.ok listed;
  get_source = λ tenant operation. Results.ok archive;
  read_artifact = λ tenant handle operation. Results.ok handle;
  fetch = λ url. response 200 (some (65 ∷ 66 ∷ []));
  parse_int = λ s. if str_eq s "2" then some (pos 2) else none;
  digest_of = λ body. if length body == 2 then "sha256:two" else "sha256:other";
  decimal = λ n. "n";
}

abbrev found : Operation
found = record {
  operation_id = "op";
  tenant_id = "t1";
  project_id = "p1";
  actor_id = "a1";
  kind = "OPERATION_KIND_PREVIEW_BUILD";
  subject = record {
    profile_id = "p";
    subject_digest = "d";
    brief_id = none;
    source_revision = none;
    source_handle = none;
    source_operation_id = none;
    package_version = none;
  };
  lifecycle = "";
  phase = "";
  control = "";
  cleanup = "";
  finance = "";
  revision = "1";
  covered_event_seq = "1";
  execution_epoch = "1";
  created_at = none;
  updated_at = none;
  deadline = none;
  failure_code = "";
  active_deadline = none;
  progress = none;
  clarification = none;
}

abbrev stubs : Stubs
stubs = record {
  create_operation = λ r. Results.failed no_status;
  get_operation = λ r. Results.ok found;
  submit_command = λ r. Results.failed no_status;
  get_command = λ r. Results.failed no_status;
  submit_answer = λ r. Results.failed no_status;
  begin_transfer = λ r. Results.failed no_status;
  finalize_transfer = λ r. Results.failed no_status;
}

abbrev caller : Context
caller = record {
  principal = some (record { tenant_id = "t1"; project_id = "p1"; actor_id = "a1"; roles = [] });
  digest = none;
}

abbrev style_reply : Reply Sent
style_reply = record {
  status = 200;
  body = record {
    content_type = "text/css";
    content_length = 2;
    headers = ("Cache-Control", "no-store") ∷ ("X-Content-Type-Options", "nosniff") ∷ [];
    source = none;
    body = 65 ∷ 66 ∷ [];
  };
}

abbrev source_reply : Reply Sent
source_reply = record {
  status = 200;
  body = record {
    content_type = "application/x-tar";
    content_length = 2;
    headers = ("Cache-Control", "no-store") ∷ [];
    source = some (record { lineage = "l1"; digest = "sha256:two"; revision = some "7" });
    body = 65 ∷ 66 ∷ [];
  };
}

sends_style :
    handle_read_preview_artifact stubs reads caller "op" "sha256:two" ≡ Results.ok style_reply
unfolding handle_read_preview_artifact read_preview_artifact last_of read_verified read_fetched
    check_bytes
sends_style = refl

sends_source : handle_read_source stubs reads caller "op" ≡ Results.ok source_reply
unfolding handle_read_source read_source read_verified read_fetched check_bytes
sends_source = refl

handle_read_preview_artifact_lem_example :
    IsReadable stubs reads caller "op"
    × ((r : Recorded) × (a : Artifact) × (reads.get_preview (principal_of caller).tenant_id "op"
          ≡ Results.ok r)
        × (last_of "sha256:two" (artifacts_of r.artifacts) ≡ some a)
        × (a.digest ≡ "sha256:two")
        × IsRecorded
            (owner_for stubs reads (principal_of caller))
            a
            max_preview_artifact
            style_reply.body.body
        × (style_reply.body.content_type ≡ media_type_of a.class))
    × (style_reply.status ≡ 200)
    × (style_reply.body.content_length ≡ length style_reply.body.body)
    × (style_reply.body.headers
        ≡ ("Cache-Control", "no-store") ∷ ("X-Content-Type-Options", "nosniff") ∷ [])
handle_read_preview_artifact_lem_example =
    handle_read_preview_artifact_lem stubs reads caller "op" "sha256:two" style_reply sends_style

handle_read_source_lem_example :
    IsReadable stubs reads caller "op"
    × ((s : Source) × (reads.get_source (principal_of caller).tenant_id "op" ≡ Results.ok s)
        × IsRecorded
            (owner_for stubs reads (principal_of caller))
            s.archive
            max_source_archive
            source_reply.body.body
        × (source_reply.body.source
            ≡ some (record {
              lineage = s.lineage;
              digest = s.archive.digest;
              revision = opt_str s.revision;
            })))
    × (source_reply.status ≡ 200)
    × (source_reply.body.content_length ≡ length source_reply.body.body)
    × (source_reply.body.headers ≡ ("Cache-Control", "no-store") ∷ [])
handle_read_source_lem_example =
    handle_read_source_lem stubs reads caller "op" source_reply sends_source
