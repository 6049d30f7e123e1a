-- ===== src/Release.antt =====
-- Releases (internal/adapters/control/release.go; preview.go, authorize; the handler GetRelease): the
-- messages of Control's ReleaseService are generated code, so its stub is a parameter, and an
-- enumerator is its name. A time is the nanoseconds since the epoch.
pub mod Lock
mod Examples
use text.Mathlib.Text.{◌==◌ as str_eq}
use anvilkit_agent_api.Base.{ℕ, String, ◌&&◌, Option, none, some, List, map, if◌then◌else◌}
use anvilkit_agent_api.Base.Int.{ℤ}
use anvilkit_agent_api.Base.Results.{Result, failed, ok, ◌>>=◌}
use anvilkit_agent_api.Errors.{Failure}
use anvilkit_agent_api.Access.{Principal}
use anvilkit_agent_api.Control.{Answer}
use anvilkit_agent_api.Control.Wire.{Stubs, Called, Operation, GetOperation}
use anvilkit_agent_api.Control.Client.{scope, enum_word, as_time, present, mapped}
use anvilkit_agent_api.Control.Handlers.{Context, principal_of, Reply, respond}

-- A target, on the wire and in public: the state is the enumerator or its word.
pub record Target : Type 0 where
  pub state : String
  pub receipt_id : Option String
  pub receipt_digest : Option String
  pub destination : Option String
  pub manifest_digest : Option String
  pub failure_code : Option String

pub record Approval : Type 0 where
  pub state : String
  pub subject_digest : String
  pub approver_id : Option String
  pub reason_code : Option String
  pub decided_at : Option ℤ

pub record Artifact : Type 0 where
  pub digest : String
  pub size_bytes : String

pub record Subject : Type 0 where
  pub component_id : String
  pub puck_type : String
  pub source_revision : String
  pub source_digest : String
  pub package_name : String
  pub version : String
  pub npm : Artifact
  pub browser : Artifact
  pub css : List Artifact
  pub build_profile_id : String
  pub build_profile_digest : String
  pub validator_profile_id : String
  pub validator_profile_digest : String
  pub host_abi : String
  pub host_abi_digest : String
  pub certification_evidence_digest : String
  pub subject_digest : String
  pub npm_registry : String
  pub browser_origin : String

-- The lock entry that a saved page pins; its schema version is the contract's first.
pub record ReleaseLock : Type 0 where
  pub component_id : String
  pub puck_type : String
  pub release_id : String
  pub package_name : String
  pub package_version : String
  pub browser_manifest_digest : String
  pub host_profile_id : String

-- Control's release.
pub record Recorded : Type 0 where
  pub operation_id : String
  pub lineage : String
  pub source_revision : String
  pub state : String
  pub release_id : Option String
  pub npm : Target
  pub browser : Target
  pub activation : Target
  pub catalog_revision : Option String
  pub failure_code : Option String
  pub revision : String
  pub updated_at : Option ℤ
  pub approval_deadline : Option ℤ
  pub approval : Option Approval
  pub subject : Option Subject

-- The public release.
pub record Release : Type 0 where
  pub operation_id : String
  pub lineage : String
  pub source_revision : String
  pub state : String
  pub release_id : Option String
  pub npm : Target
  pub browser : Target
  pub activation : Target
  pub catalog_revision : Option String
  pub failure_code : Option String
  pub revision : String
  pub updated_at : ℤ
  pub approval_deadline : Option ℤ
  pub approval : Option Approval
  pub subject : Option Subject
  pub lock : Option ReleaseLock

unfoldable pub to_release_target : Target → Target
unfolding enum_word
to_release_target t = record t { state = enum_word t.state "TARGET_STATE_" }

unfoldable pub to_approval : Approval → Approval
unfolding enum_word
to_approval a = record a { state = enum_word a.state "APPROVAL_STATE_" }

abbrev pub activated : String
activated = "RELEASE_STATE_ACTIVATED"

abbrev pub pinned : Subject → String → String → ReleaseLock
pinned s release_id manifest = record {
  component_id = s.component_id;
  puck_type = s.puck_type;
  release_id = release_id;
  package_name = s.package_name;
  package_version = s.version;
  browser_manifest_digest = manifest;
  host_profile_id = s.host_abi;
}

-- The test of the lock, and the lock: the state, the release id, the browser's manifest.
unfoldable pub lock_of :
    String → Option String → Option String → Option Subject → Option ReleaseLock
lock_of state (some release_id) (some manifest) (some s) =
    if str_eq state activated then some (pinned s release_id manifest) else none
lock_of state _ _ _ = none

unfoldable pub to_release : Recorded → Release
unfolding enum_word to_release_target to_approval lock_of
to_release r = record {
  operation_id = r.operation_id;
  lineage = r.lineage;
  source_revision = r.source_revision;
  state = enum_word r.state "RELEASE_STATE_";
  release_id = r.release_id;
  npm = to_release_target r.npm;
  browser = to_release_target r.browser;
  activation = to_release_target r.activation;
  catalog_revision = r.catalog_revision;
  failure_code = r.failure_code;
  revision = r.revision;
  updated_at = as_time r.updated_at;
  approval_deadline = r.approval_deadline;
  approval = present to_approval r.approval;
  subject = r.subject;
  lock = lock_of r.state r.release_id r.browser.manifest_digest r.subject;
}

-- The operation read under the caller's scope, of which only the error counts.
unfoldable pub authorize : Stubs → Principal → String → Answer Operation
unfolding scope
authorize stubs p operation_id =
    mapped (λ v. v) (stubs.get_operation (record { scope = scope p; operation_id = operation_id }))

-- ReleaseService's GetRelease, of a tenant's operation.
module _ (stubs : Stubs) (read : String → String → Called Recorded) where
  unfoldable pub get_release : Principal → String → Answer Release
  unfolding authorize to_release
  get_release p operation_id =
      authorize stubs p operation_id >>= λ _. mapped to_release (read p.tenant_id operation_id)

  -- The handler.
  unfoldable pub handle_get_release : Context → String → Result Failure (Reply Release)
  unfolding principal_of get_release
  handle_get_release c operation_id =
      respond 200 (λ r. r) (get_release (principal_of c) operation_id)
