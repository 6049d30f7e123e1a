-- ===== src/Identity/Examples.antt =====
-- A workload's identity at work: the properties at concrete certificates, policies and schedules.
use Prim.Native.String.{String}
use text.Mathlib.Text.{◌==◌}
use text.Mathlib.TextEquality.{eq_iff}
use anvilkit_agent_api.Base.{
  ℕ, ◌≡◌, refl, ◌↔◌, true, false, Option, none, some, List, [], ◌∷◌, arith, if◌then◌else◌,
}
use anvilkit_agent_api.Base.Dict.{lookup, insert, erase}
use anvilkit_agent_api.Identity.Material.{Block, Certificate, Material, failed, loaded, no_ca}
use anvilkit_agent_api.Identity.Reloader.{
  Reloader, Reading, polls, summary, Chained, start, polls-summary,
}
use anvilkit_agent_api.Identity.Tracker.{
  Conns, trusts, close_retired, AllTrusted, add, with_conn, has,
}
use anvilkit_agent_api.Identity.Rotation.{
  Endpoint, Action, begin, finish, publish, sweep, serving, straddling, run, run_apart, step_apart,
  step, captured, dropped, straddling_survives, run_apart-AllTrusted,
}
use anvilkit_agent_api.Identity.Spiffe.{
  Principal, Uri, known, peer_principal, is_label, label_rest, all_labels, split,
}
use anvilkit_agent_api.Identity.Spiffe.Names.{Names, peer_principal_of_Names}
use anvilkit_agent_api.Base.Dict.{lookup}
use anvilkit_agent_api.Config.Environment.{has_prefix}
use anvilkit_agent_api.Identity.Policy.{new_authorizer, slashes, all_workloads, new_authorizer_iff}
use anvilkit_agent_api.Identity.Authz.{
  Workload, any_authenticated, authorize, admitted, Authorizer, peer, unary, MayCall, unary_iff,
}

abbrev leaf : Certificate
leaf = record { fingerprint = "leaf"; is_ca = false; not_before = 10; not_after = 20 }

abbrev authority : Certificate
authority = record { fingerprint = "root"; is_ca = true; not_before = 0; not_after = 99 }

-- The bytes of a certificate are its name here.
abbrev read : String → Option Certificate
read s = if s == "leaf" then some leaf else if s == "root" then some authority else none

abbrev material : Material
material = record { leaf = leaf; roots = "root" ∷ []; digest = "d1" }

abbrev blocks : List (Block String)
blocks = record { kind = "CERTIFICATE"; bytes = "root" } ∷ []

abbrev next : Material
next = record { leaf = leaf; roots = "root" ∷ "new" ∷ []; digest = "d2" }

abbrev readings : List Reading
readings =
    record { files_digest = none; load = failed no_ca }
    ∷ record { files_digest = some "d2"; load = loaded next }
    ∷ record { files_digest = some "d3"; load = failed no_ca }
    ∷ []

abbrev reloader : Reloader
reloader = record { current = material; failures = 0; published = [] }

polls-summary_example :
    ((polls reloader readings).current ≡ (summary (material, 0) readings).0)
    × ((polls reloader readings).failures ≡ (summary (material, 0) readings).1)
    × Chained material (polls reloader readings).published (polls reloader readings).current
polls-summary_example = polls-summary material reloader readings start

abbrev tracked : Conns
tracked = ("old", 1 ∷ 2 ∷ []) ∷ ("new", 3 ∷ []) ∷ []

abbrev schedule : List Action
schedule = begin 1 ∷ finish 1 "old" ∷ publish ("new" ∷ []) ∷ sweep ∷ begin 2 ∷ finish 2 "new" ∷ []

abbrev after : Endpoint
after = record {
  roots = "new" ∷ [];
  handshaking = [];
  conns = ("new", 2 ∷ []) ∷ [];
  sweeping = false;
}

schedule_runs : run_apart (serving ("old" ∷ [])) schedule ≡ some after
unfolding run_apart step_apart step captured dropped trusts close_retired add lookup insert erase
    with_conn has
schedule_runs = refl

run_apart-AllTrusted_example : AllTrusted after.roots after.conns
run_apart-AllTrusted_example = run_apart-AllTrusted ("old" ∷ []) schedule after schedule_runs refl

straddling_survives_example :
    (t : Endpoint) × (run (serving ("old" ∷ [])) (straddling 7 "old" "new") ≡ some t)
    × (t.sweeping ≡ false)
    × (trusts "old" t.roots ≡ false)
    × (lookup "old" t.conns ≡ some (7 ∷ []))
straddling_survives_example =
    straddling_survives 7 "old" "new" (λ e. ground (arith, e, eq_iff "old" "new"))

abbrev agent : Principal
agent = record {
  trust_domain = "anvilkit.dev";
  namespace = "agents";
  service_account = "agent-api";
}

abbrev agent_uri : Uri
agent_uri = record {
  scheme = "spiffe";
  opaque = "";
  has_user = false;
  host = "anvilkit.dev";
  port = "";
  path = "/ns/agents/sa/agent-api";
  raw_query = "";
  fragment = "";
}

agent-Names : Names agent_uri agent
unfolding all_labels is_label label_rest split
agent-Names = record {
  scheme = refl;
  no_user = refl;
  opaque = refl;
  raw_query = refl;
  fragment = refl;
  port = refl;
  host = refl;
  trust_domain = refl;
  path = refl;
  namespace = refl;
  service_account = refl;
}

peer_principal_of_Names_example : peer_principal (some (agent_uri ∷ [])) ≡ known agent
peer_principal_of_Names_example = peer_principal_of_Names agent_uri agent agent-Names

abbrev authorizer : Authorizer
authorizer = record {
  trust_domain = "anvilkit.dev";
  policy = ("/a.B/C", record { namespace = "agents"; service_account = "agent-api" } ∷ []) ∷ [];
}

unary_iff_example :
    (unary {A = ℕ} authorizer "/a.B/C" (peer (known agent)) 5 ≡ some 5)
    ↔ MayCall authorizer "/a.B/C" (peer (known agent))
unary_iff_example = unary_iff authorizer "/a.B/C" (peer (known agent)) 5

makes_authorizer : new_authorizer "anvilkit.dev" authorizer.policy ≡ some authorizer
unfolding new_authorizer slashes all_workloads has_prefix is_label label_rest all_labels split
makes_authorizer = refl

-- A method that names nobody is refused, as is one that is no full name.
refuses_nobody : new_authorizer "anvilkit.dev" (("/a.B/C", []) ∷ []) ≡ none
unfolding new_authorizer slashes all_workloads has_prefix is_label label_rest all_labels split
refuses_nobody = refl

refuses_bare : new_authorizer "anvilkit.dev" (("a.B/C", any_authenticated ∷ []) ∷ []) ≡ none
unfolding new_authorizer slashes all_workloads has_prefix is_label label_rest all_labels split
refuses_bare = refl

new_authorizer_iff_example :
    ((ws : List Workload) × (lookup "/a.B/C" authorizer.policy ≡ some ws)) ↔ (
      (u : Uri) × (u.host ≡ "anvilkit.dev")
      × (authorize authorizer "/a.B/C" (peer (peer_principal (some (u ∷ [])))) ≡ admitted))
new_authorizer_iff_example =
    new_authorizer_iff "anvilkit.dev" authorizer.policy authorizer "/a.B/C" makes_authorizer
