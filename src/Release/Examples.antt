-- ===== src/Release/Examples.antt =====
-- A release on concrete inputs.
use anvilkit_agent_api.Base.{String, ◌≡◌, refl, ◌⊎◌, Option, none, some, []}
use anvilkit_agent_api.Base.Results.{failed, ok}
use anvilkit_agent_api.Errors.Owner.{no_status}
use anvilkit_agent_api.Control.Wire
use anvilkit_agent_api.Control.Wire.{Stubs, Called}
use anvilkit_agent_api.Control.Handlers.{Context, Reply}
use anvilkit_agent_api.Release.{
  Target, Artifact, Subject, Recorded, Release, ReleaseLock, to_release, handle_get_release,
}
use anvilkit_agent_api.Release.Lock.{Pins, Provenance, get_release_lem}

abbrev target : String → Option String → Target
target state manifest = record {
  state = state;
  receipt_id = none;
  receipt_digest = none;
  destination = none;
  manifest_digest = manifest;
  failure_code = none;
}

abbrev artifact : Artifact
artifact = record { digest = "sha256:0a"; size_bytes = "3" }

abbrev subject : Subject
subject = record {
  component_id = "hero";
  puck_type = "Hero";
  source_revision = "r1";
  source_digest = "sha256:01";
  package_name = "@acme/hero";
  version = "1.2.0";
  npm = artifact;
  browser = artifact;
  css = [];
  build_profile_id = "b1";
  build_profile_digest = "sha256:02";
  validator_profile_id = "v1";
  validator_profile_digest = "sha256:03";
  host_abi = "host1";
  host_abi_digest = "sha256:04";
  certification_evidence_digest = "sha256:05";
  subject_digest = "sha256:06";
  npm_registry = "npm";
  browser_origin = "cdn";
}

abbrev recorded : Recorded
recorded = record {
  operation_id = "op1";
  lineage = "l1";
  source_revision = "r1";
  state = "RELEASE_STATE_ACTIVATED";
  release_id = some "rel1";
  npm = target "TARGET_STATE_PUBLISHED" none;
  browser = target "TARGET_STATE_PUBLISHED" (some "sha256:07");
  activation = target "TARGET_STATE_PUBLISHED" none;
  catalog_revision = some "4";
  failure_code = none;
  revision = "9";
  updated_at = none;
  approval_deadline = none;
  approval = none;
  subject = some subject;
}

abbrev operation : Wire.Operation
operation = record {
  operation_id = "op1";
  tenant_id = "t1";
  project_id = "p1";
  actor_id = "a1";
  kind = "OPERATION_KIND_RELEASE";
  subject = record {
    profile_id = "p";
    subject_digest = "d";
    brief_id = none;
    source_revision = none;
    source_handle = none;
    source_operation_id = some "op0";
    package_version = some "1.2.0";
  };
  lifecycle = "LIFECYCLE_COMPLETED";
  phase = "done";
  control = "CONTROL_STATE_NONE";
  cleanup = "CLEANUP_STATE_NONE";
  finance = "FINANCE_STATE_NONE";
  revision = "1";
  covered_event_seq = "4";
  execution_epoch = "1";
  created_at = none;
  updated_at = none;
  deadline = none;
  failure_code = "";
  active_deadline = none;
  progress = none;
  clarification = none;
}

abbrev stubs : Stubs
stubs = record {
  create_operation = λ r. failed no_status;
  get_operation = λ r. ok operation;
  submit_command = λ r. failed no_status;
  get_command = λ r. failed no_status;
  submit_answer = λ r. failed no_status;
  begin_transfer = λ r. failed no_status;
  finalize_transfer = λ r. failed no_status;
}

abbrev read : String → String → Called Recorded
read tenant operation_id = ok recorded

abbrev caller : Context
caller = record {
  principal = some (record { tenant_id = "t1"; project_id = "p1"; actor_id = "a1"; roles = [] });
  digest = none;
}

abbrev lock : ReleaseLock
lock = record {
  component_id = "hero";
  puck_type = "Hero";
  release_id = "rel1";
  package_name = "@acme/hero";
  package_version = "1.2.0";
  browser_manifest_digest = "sha256:07";
  host_profile_id = "host1";
}

shown : Reply Release
unfolding to_release
shown = record { status = 200; body = to_release recorded }

answers : handle_get_release stubs read caller "op1" ≡ ok shown
unfolding handle_get_release shown
answers = refl

get_release_lem_example :
    (s : Provenance stubs read caller "op1" shown.body) × ((shown.body.lock ≡ none)
      ⊎ ((l : ReleaseLock) × (shown.body.lock ≡ some l) × Pins s.recorded l))
get_release_lem_example = get_release_lem stubs read caller "op1" shown answers
