-- ===== src/Control/Examples.antt =====
-- The handlers over a Control that answers every call.
use text.Mathlib.Text.{◌==◌ as str_eq}
use anvilkit_agent_api.Base.{if◌then◌else◌, ◌≡◌, refl, none, some, []}
use anvilkit_agent_api.Base.Int.{pos}
use anvilkit_agent_api.Base.Dict.{lookup}
use anvilkit_agent_api.Base.Results.{failed, ok}
use anvilkit_agent_api.Access.{Principal}
use anvilkit_agent_api.Errors.Owner.{no_status, status, internal}
use anvilkit_agent_api.Control.{OperationView}
use anvilkit_agent_api.Control.Wire
use anvilkit_agent_api.Control.Wire.{Stubs}
use anvilkit_agent_api.Control.Requests.{begin_transfer}
use anvilkit_agent_api.Control.Public
use anvilkit_agent_api.Control.Public.{view_to_public}
use anvilkit_agent_api.Control.Handlers.{Context, Reply, BeginTransferBody}
use anvilkit_agent_api.Control.Scoped.{
  verified, Request, transfer, serve, Alike, serve-Alike, begin_transfer_route, get_operation_route,
  command_id_of,
}
use anvilkit_agent_api.Control.Words.{
  operation_kinds, table_of, read_view, read_view-view_to_public,
}
use anvilkit_agent_api.Control.Capability.{IsBegun, capability_issued}

abbrev actor : Principal
actor = record { tenant_id = "t1"; project_id = "p1"; actor_id = "a1"; roles = [] }

abbrev caller : Context
caller = verified actor "sha256:00"

abbrev begun : Wire.Transfer
begun = record {
  transfer_id = "tr1";
  handle = "h1";
  class = "ARTIFACT_CLASS_PROMPT";
  expected_digest = "sha256:01";
  expected_size = "3";
  state = "TRANSFER_STATE_BEGUN";
  deadline = some (pos 9);
  object_version = "";
  reason_code = "";
}

abbrev capability : Wire.Capability
capability = record { url = "https://store/1"; method = "PUT"; headers = []; expires_at = none }

abbrev owner : Stubs
owner = record {
  create_operation = λ r. failed no_status;
  get_operation = λ r. failed no_status;
  submit_command = λ r. failed no_status;
  get_command = λ r. failed no_status;
  submit_answer = λ r. failed no_status;
  begin_transfer = λ r. ok (begun, some capability);
  finalize_transfer = λ r. ok begun;
}

-- An owner that answers the reads of another tenant otherwise.
abbrev other_owner : Stubs
other_owner = record owner {
  get_operation =
      λ r. if str_eq r.scope.tenant_id "t1" then failed no_status else failed (status internal "");
}

alike : Alike actor "sha256:00" "" owner other_owner
alike = record {
  create_operation = λ r own mine. refl;
  get_operation = λ r own. rw own.0 refl;
  submit_command = λ r own mine. refl;
  get_command = λ r own. refl;
  submit_answer = λ r own mine. refl;
  begin_transfer = λ r own mine. refl;
  finalize_transfer = λ r mine. refl;
}

serve-Alike_example :
    serve owner caller (get_operation_route "op1")
    ≡ serve other_owner caller (get_operation_route "op1")
unfolding command_id_of
serve-Alike_example =
    serve-Alike owner other_owner actor "sha256:00" (get_operation_route "op1") alike

abbrev body : BeginTransferBody
body = record {
  command_id = "c1";
  class = "prompt";
  media_type = "text/plain";
  expected_digest = "sha256:01";
  expected_size = "3";
  operation_id = none;
  attempt_id = none;
}

abbrev request : Request
request = begin_transfer_route (pos 1) (pos 8) body

abbrev reply : Reply Public.Transfer
reply = record {
  status = 201;
  body = record {
    transfer_id = "tr1";
    handle = "h1";
    class = "prompt";
    expected_digest = "sha256:01";
    expected_size = "3";
    state = "begun";
    deadline = pos 9;
    object_version = none;
    reason_code = none;
    upload_capability = some "https://store/1";
    upload_method = some "PUT";
    upload_headers = some [];
    upload_expires_at = some (pos 0);
  };
}

begins : serve owner caller request ≡ ok (transfer reply)
unfolding serve begin_transfer
begins = refl

capability_issued_example : IsBegun owner caller reply "https://store/1" request
capability_issued_example =
    capability_issued owner caller reply "https://store/1" request begins refl

listed : lookup "preview_build" (table_of operation_kinds) ≡ some "OPERATION_KIND_PREVIEW_BUILD"
unfolding lookup table_of
listed = refl

abbrev view : OperationView
view = record {
  operation_id = "op1";
  tenant_id = "t1";
  project_id = "";
  actor_id = "a1";
  kind = "release";
  subject = record {
    profile_id = "p";
    subject_digest = "d";
    brief_id = "";
    source_revision = "r1";
    source_handle = "";
    source_operation_id = "op0";
    package_version = "1.0.0";
  };
  lifecycle = "running";
  phase = "p";
  control = "none";
  cleanup = "none";
  finance = "none";
  revision = "1";
  covered_event_seq = "4";
  execution_epoch = "1";
  created_at = pos 1;
  updated_at = pos 2;
  deadline = pos 3;
  failure_code = "";
  active_deadline = none;
  clarification = none;
  progress = none;
}

read_view-view_to_public_example : read_view (view_to_public view) ≡ view
read_view-view_to_public_example = read_view-view_to_public view
