-- ===== src/Recovery/Examples.antt =====
-- The recovery routes on concrete inputs.
use text.Mathlib.Text.{◌==◌ as str_eq}
use anvilkit_agent_api.Base.{
  String, ◌≡◌, refl, inl, inr, true, false, none, some, [], if◌then◌else◌,
}
use anvilkit_agent_api.Base.Int.{pos}
use anvilkit_agent_api.Base.Results.{failed, ok}
use anvilkit_agent_api.Access.{Principal}
use anvilkit_agent_api.Errors.Owner.{no_status, status, internal}
use anvilkit_agent_api.Control.Scoped.{verified}
use anvilkit_agent_api.Recovery.{Run, Stubs}
use anvilkit_agent_api.Recovery.Client.{Env}
use anvilkit_agent_api.Recovery.Scoped.{
  Request, begin, serve, Alike, command_id_of, all_asked, recovery-Alike,
}

abbrev env : Env
env = record { finding_statuses = []; decisions = []; upper = λ s. s }

abbrev started : String → Run
started key = record {
  run_id = "run1";
  scope_key = key;
  recovery_epoch = "1";
  phase = "RECOVERY_PHASE_FENCING";
  window_start = none;
  window_end = none;
  clock_uncertainty = pos 0;
  fenced_operations = "0";
  unsettled_findings = "0";
  progress = [];
  created_at = none;
  reopened_at = none;
}

abbrev owner : Stubs
owner = record {
  begin_recovery = λ m. ok (started m.scope_key, false);
  get_recovery = λ m. failed no_status;
  list_findings = λ m. failed no_status;
  dispose_obligation = λ m. failed no_status;
}

-- An owner that refuses to recover every tenant.
abbrev other_owner : Stubs
other_owner = record owner {
  begin_recovery = λ m.
      if str_eq m.scope_key "*"
      then failed (status internal "")
      else ok (started m.scope_key, false);
}

abbrev actor : Principal
actor = record { tenant_id = "t1"; project_id = "p1"; actor_id = "a1"; roles = [] }

abbrev request : Request
request = begin (record {
  command_id = "c1";
  all_tenants = none;
  window_start = pos 1;
  window_end = pos 2;
  clock_uncertainty_seconds = none;
  reason = none;
})

alike : Alike actor "sha256:01" request owner other_owner
unfolding command_id_of all_asked
alike = record {
  begin_recovery = λ m own mine key. elim key [
    | inl tenant ↦ rw tenant refl
    | inr (every, asked) ↦ let stop : none ≡ some true = asked in cc
  ];
  get_recovery = λ m own. refl;
  list_findings = λ m own. refl;
  dispose_obligation = λ m own mine. refl;
}

recovery-Alike_example :
    serve env owner (verified actor "sha256:01") request
    ≡ serve env other_owner (verified actor "sha256:01") request
recovery-Alike_example = recovery-Alike env owner other_owner actor "sha256:01" request alike
