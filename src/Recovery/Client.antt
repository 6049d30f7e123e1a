-- ===== src/Recovery/Client.antt =====
-- The client's requests and readers (internal/adapters/control/recovery.go). The contract's tables of
-- enumerators and strings.ToUpper are parameters.
use Prim.Native.Nat.{◌/◌}
use Prim.Native.String.{String}
use Prim.Native.String
use anvilkit_agent_api.Base.{
  ℕ, suc, ◌*◌, ◌-◌, Bool, false, Option, none, some, List, map, if◌then◌else◌, ◌==◌,
}
use anvilkit_agent_api.Base.Text.{is_empty}
use anvilkit_agent_api.Base.Int.{ℤ, pos, negsuc, int32, int64}
use anvilkit_agent_api.Errors.Owner.{one_of}
use anvilkit_agent_api.Access.{Principal}
use anvilkit_agent_api.Control.{CommandIdentity, Answer, deref}
use anvilkit_agent_api.Control.Client.{scope, command, enum_word, as_time, mapped}
use anvilkit_agent_api.Recovery.{
  Run, RecoveryRun, Found, Finding, FoundPage, FindingPage, Disposed, Disposition, BeginBody,
  FindingParams, DisposeBody, Stubs,
}

pub record Env : Type 0 where
  pub finding_statuses : List String
  pub decisions : List String
  pub upper : String → String

abbrev flag : Option Bool → Bool
flag none = false
flag (some b) = b

unfoldable pub recovery_scope_key : Principal → Option Bool → String
recovery_scope_key p all_tenants = if flag all_tenants then "*" else p.tenant_id

-- A duration in seconds, truncated.
abbrev in_seconds : ℤ → ℤ
in_seconds (pos n) = pos (n / 1000000000)
in_seconds (negsuc n) = if suc n / 1000000000 == 0 then pos 0 else negsuc (suc n / 1000000000 - 1)

unfoldable pub to_recovery_run : Run → RecoveryRun
unfolding enum_word
to_recovery_run r = record {
  run_id = r.run_id;
  scope_key = r.scope_key;
  recovery_epoch = r.recovery_epoch;
  phase = enum_word r.phase "RECOVERY_PHASE_";
  window_start = as_time r.window_start;
  window_end = as_time r.window_end;
  clock_uncertainty_seconds = in_seconds r.clock_uncertainty;
  fenced_operations = r.fenced_operations;
  unsettled_findings = r.unsettled_findings;
  progress = r.progress;
  created_at = as_time r.created_at;
  reopened_at = r.reopened_at;
}

unfoldable pub optional : String → Option String
optional s = if is_empty s then none else some s

unfoldable pub to_finding : Found → Finding
unfolding enum_word optional
to_finding f = record {
  finding_id = f.finding_id;
  run_id = f.run_id;
  class = f.class;
  obligation_id = f.obligation_id;
  tenant_id = f.tenant_id;
  inventory_version = f.inventory_version;
  recorded_at = as_time f.recorded_at;
  status = enum_word f.status "FINDING_STATUS_";
  outcome = optional f.outcome;
  evidence_ref = optional f.evidence_ref;
  detail = optional f.detail;
  launch_key = optional f.launch_key;
}

abbrev pub to_finding_page : FoundPage → FindingPage
to_finding_page page = record {
  findings = map to_finding page.findings;
  complete = page.complete;
  next_cursor = optional page.next_cursor;
}

-- A disposition that names no run is of the run asked for.
unfoldable pub to_disposition : String → Disposed → Disposition
unfolding enum_word
to_disposition run_id d = record {
  disposition_id = d.disposition_id;
  run_id = if is_empty d.run_id then run_id else d.run_id;
  class = d.class;
  obligation_id = d.obligation_id;
  decision = enum_word d.decision "DISPOSITION_DECISION_";
  evidence_ref = d.evidence_ref;
  evidence_digest = d.evidence_digest;
  recovery_epoch = d.recovery_epoch;
  decided_at = as_time d.decided_at;
}

-- `X_value[prefix+ToUpper(w)]`: the zero enumerator for a word that is not listed.
abbrev value_of : (String → String) → List String → String → String → String
value_of upper names prefix w =
    let name = String.◌++◌ prefix (upper w) in
    if one_of name names then name else String.◌++◌ prefix "UNSPECIFIED"

module _ (env : Env) (stubs : Stubs) (cmd : CommandIdentity) (p : Principal) where
  abbrev uncertainty : Option ℕ → Option ℤ
  uncertainty none = none
  uncertainty (some n) = some (int64 (pos (n * 1000000000)))

  unfoldable pub begin_recovery : BeginBody → Answer (RecoveryRun × Bool)
  unfolding scope command recovery_scope_key deref to_recovery_run
  begin_recovery req =
      mapped (λ r. (to_recovery_run r.0, r.1))
        (stubs.begin_recovery (record {
          command = command cmd;
          scope = scope p;
          scope_key = recovery_scope_key p req.all_tenants;
          window_start = req.window_start;
          window_end = req.window_end;
          clock_uncertainty = uncertainty req.clock_uncertainty_seconds;
          reason = deref req.reason;
        }))

  unfoldable pub dispose_obligation : String → DisposeBody → Answer (Disposition × Bool)
  unfolding scope command deref to_disposition
  dispose_obligation run_id req =
      mapped (λ r. (to_disposition run_id r.0, r.1))
        (stubs.dispose_obligation (record {
          command = command cmd;
          scope = scope p;
          class = req.class;
          obligation_id = req.obligation_id;
          decision = value_of env.upper env.decisions "DISPOSITION_DECISION_" req.decision;
          evidence_ref = req.evidence_ref;
          evidence_digest = req.evidence_digest;
          recovery_epoch = req.recovery_epoch;
          run_id = run_id;
          reason = deref req.reason;
        }))

module _ (env : Env) (stubs : Stubs) (p : Principal) where
  unfoldable pub get_recovery : String → Answer RecoveryRun
  unfolding scope to_recovery_run
  get_recovery run_id =
      mapped to_recovery_run (stubs.get_recovery (record { run_id = run_id; scope = scope p }))

  abbrev status_of : Option String → String
  status_of none = "FINDING_STATUS_UNSPECIFIED"
  status_of (some w) = value_of env.upper env.finding_statuses "FINDING_STATUS_" w

  abbrev limit_of : Option ℤ → ℤ
  limit_of none = pos 0
  limit_of (some n) = int32 n

  unfoldable pub list_recovery_findings : String → FindingParams → Answer FindingPage
  unfolding scope deref to_finding optional
  list_recovery_findings run_id params = mapped to_finding_page (
      stubs.list_findings (record {
        run_id = run_id;
        scope = scope p;
        status = status_of params.status;
        cursor = deref params.cursor;
        limit = limit_of params.limit;
      }))
