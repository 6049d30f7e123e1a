-- ===== src/Startup/Process.antt =====
-- The process's start (internal/config/config.go, Load and LoadFrom; internal/bootstrap/module.go,
-- newVerifier, newGateways and the constructors of Module in the order in which fx runs them for
-- `run`; telemetry.go, newTracer; internal/adapters/oidcauth, New). The first failure ends the start.
-- koanf, go-oidc's discovery, gRPC's and the exporter's dials are parameters.
use text.Mathlib.Text.{◌==◌ as str_eq}
use anvilkit_agent_api.Base.{
  String, Bool, true, false, ◌||◌, Option, none, some, List, [], ◌∷◌, ◌>>=◌, if◌then◌else◌,
}
use anvilkit_agent_api.Base.Text.{is_empty}
use anvilkit_agent_api.Base.Int.{ℤ}
use anvilkit_agent_api.Config.{
  MtlsFiles, ClientIdentity, Oidc, OidcClaims, Auth, Config, Url, ConfigError, OwnerSection,
  Telemetry,
}
use anvilkit_agent_api.Config.Validate.{validate}
use anvilkit_agent_api.Config.Environment.{env_overrides, apply_env}
use anvilkit_agent_api.Startup.{Identities, Transport, client, collector_credentials}

-- What oidcauth.New is given, with the roots of its HTTP client: none are the system's.
pub record Discovery (P : Type 0) : Type 0 where
  pub issuer : String
  pub audience : String
  pub algorithms : List String
  pub clock_skew : ℤ
  pub claims : OidcClaims
  pub roots : Option P

pub data Verifier (P V : Type 0) : Type 0 where
  fixture : V → Verifier P V
  oidc : Discovery P → V → Verifier P V

-- `loaded` is what koanf holds once the defaults and the file are loaded, and `decoded` what it
-- unmarshals; `principals` loads the principals file, and `discovered` is go-oidc's provider.
pub record Outside (F R P V : Type 0) : Type 0 where
  pub loaded : String → Option (List (String × String))
  pub decoded : List (String × String) → Option (Config F)
  pub float_lt : F → F → Bool
  pub zero_ratio : F
  pub one_ratio : F
  pub parse_url : String → Option Url
  pub open_files : MtlsFiles → Option R
  pub ca_pool : String → Option P
  pub principals : String → Option V
  pub discovered : Discovery P → Option V
  pub dials : String → Bool
  pub exports : String → Bool

-- Load: the file of the environment, or the default.
unfoldable pub config_path : String → String → String
config_path default_file named = if is_empty named then default_file else named

abbrev pub no_errors : List ConfigError → Bool
no_errors [] = true
no_errors (e ∷ es) = false

abbrev pub no_names : List String → Bool
no_names [] = true
no_names (n ∷ ns) = false

abbrev pub checked : {A : Type 0} → Bool → A → Option A
checked true a = some a
checked false a = none

-- The state that the transports thread, and what a step made of it.
abbrev pub Step : Type 0 → Type 0 → Type 0
Step R A = Identities R × Option A

module _ {F R P V : Type 0} (o : Outside F R P V) where
  abbrev pub overridden : List (String × String) × List String → Option (List (String × String))
  overridden (k, unknown) = checked (no_names unknown) k

  abbrev pub valid : Config F → Option (Config F)
  valid c = checked (no_errors (validate o.float_lt o.zero_ratio o.one_ratio o.parse_url c)) c

  unfoldable pub load_from : String → List String → Option (Config F)
  load_from path environ = o.loaded path >>= λ k.
      overridden (apply_env env_overrides k environ) >>= λ all. o.decoded all >>= valid

  -- A name that oidcauth.New requires is missing.
  abbrev pub is_partial : Discovery P → Bool
  is_partial d =
      is_empty d.issuer
      || is_empty d.audience
      || no_names d.algorithms
      || is_empty d.claims.tenant
      || is_empty d.claims.actor

  -- oidcauth.New
  unfoldable pub new_oidc : Discovery P → Option (Verifier P V)
  new_oidc d = if is_partial d then none else (o.discovered d >>= λ v. some (oidc d v))

  abbrev pub discovery_of : Oidc → Option P → Discovery P
  discovery_of c roots = record {
    issuer = c.issuer;
    audience = c.audience;
    algorithms = c.algorithms;
    clock_skew = c.clock_skew;
    claims = c.claims;
    roots = roots;
  }

  -- The roots of the file that the section names, if it names one.
  abbrev pub roots_of : String → Option (Option P)
  roots_of ca_file =
      if is_empty ca_file then some none else (o.ca_pool ca_file >>= λ pool. some (some pool))

  unfoldable pub new_verifier : Auth → Option (Verifier P V)
  unfolding new_oidc
  new_verifier auth =
      if str_eq auth.mode "fixture"
      then (o.principals auth.principals_file >>= λ v. some (fixture v))
      else (roots_of auth.oidc.ca_file >>= λ roots. new_oidc (discovery_of auth.oidc roots))

  abbrev pub dialled : String → Step R (Transport R P) → Step R (Transport R P)
  dialled address (ids, none) = (ids, none)
  dialled address (ids, some t) = (ids, checked (o.dials address) t)

  -- The connection of a gRPC client, under its identity.
  unfoldable pub connected :
      Identities R → String → ClientIdentity → String → Step R (Transport R P)
  unfolding client
  connected ids address ci server_name =
      dialled address (client o.open_files o.ca_pool ids ci server_name)

  abbrev pub placed : Step R (Transport R P) → Step R (Option (Transport R P))
  placed (ids, none) = (ids, none)
  placed (ids, some t) = (ids, some (some t))

  -- A branch of newGateways: an owner without an address has no connection.
  unfoldable pub new_gateway :
      Identities R → OwnerSection → String → Step R (Option (Transport R P))
  unfolding connected
  new_gateway ids owner server_name =
      if is_empty owner.address
      then (ids, some none)
      else placed (connected ids owner.address owner.identity server_name)

  abbrev pub exported : String → Step R (Transport R P) → Step R (Option (Transport R P))
  exported endpoint (ids, none) = (ids, none)
  exported endpoint (ids, some t) = (ids, checked (o.exports endpoint) (some t))

  -- newTracer, as far as its connection.
  unfoldable pub new_tracer : Identities R → Telemetry F → Step R (Option (Transport R P))
  unfolding collector_credentials
  new_tracer ids telemetry =
      if is_empty telemetry.otlp_endpoint
      then (ids, some none)
      else exported telemetry.otlp_endpoint
          (collector_credentials o.open_files o.ca_pool ids telemetry.otlp_tls)

  pub record Process : Type 0 where
    pub config : Config F
    pub verifier : Verifier P V
    pub control : Transport R P
    pub knowledge : Option (Transport R P)
    pub mcp : Option (Transport R P)
    pub collector : Option (Transport R P)

  abbrev pub and_then : {A B : Type 0} → Step R A → (Identities R → A → Option B) → Option B
  and_then (ids, none) f = none
  and_then (ids, some a) f = f ids a

  abbrev pub new_identities : Config F → Identities R
  new_identities c = record {
    development = c.development;
    section = c.identity;
    own = none;
    started = [];
  }

  unfoldable pub constructed : Config F → Option Process
  unfolding new_verifier connected new_gateway new_tracer
  constructed c = new_verifier c.auth >>= λ v.
      and_then
        (connected (new_identities c) c.control.address c.control.identity "anvilkit-agent-control")
        λ ids control.
          and_then (new_gateway ids c.knowledge "anvilkit-agent-knowledge") λ ids knowledge.
            and_then (new_gateway ids c.mcp "anvilkit-agent-mcp") λ ids mcp.
              and_then (new_tracer ids c.telemetry) λ ids collector. some (record {
                config = c;
                verifier = v;
                control = control;
                knowledge = knowledge;
                mcp = mcp;
                collector = collector;
              })

  unfoldable pub start : String → List String → Option Process
  unfolding load_from constructed
  start path environ = load_from path environ >>= constructed
