-- ===== src/Startup/ProcessExamples.antt =====
-- A production process, and the theorem on its parts.
use anvilkit_agent_api.Base.{ℕ, String, ◌≡◌, refl, true, none, some, List, [], ◌∷◌, ltb}
use anvilkit_agent_api.Base.Dict.{lookup}
use anvilkit_agent_api.Base.Text.{cut_before}
use anvilkit_agent_api.Config.Sample.{production, parsed}
use anvilkit_agent_api.Config.Environment.{apply_env, has_prefix, cut_after}
use anvilkit_agent_api.Startup.{both_verified, server_verified}
use anvilkit_agent_api.Startup.Process.{oidc, Outside, Process, start, discovery_of}

-- A reloader is the name of its certificate, and a pool that of its file.
abbrev outside : Outside ℕ String String String
outside = record {
  loaded = λ path. some (("auth.mode", "oidc") ∷ []);
  decoded = λ k. some production;
  float_lt = ltb;
  zero_ratio = 0;
  one_ratio = 100;
  parse_url = parsed;
  open_files = λ files. some files.cert_file;
  ca_pool = λ file. some file;
  principals = λ file. none;
  discovered = λ d. some "keys";
  dials = λ address. true;
  exports = λ endpoint. true;
}

abbrev environ : List String
environ = "PATH=/bin" ∷ "ANVILKIT_API_LISTEN=:8080" ∷ []

abbrev running : Process outside
running = record {
  config = production;
  verifier = oidc (discovery_of outside production.auth.oidc none) "keys";
  control = both_verified "tls.crt" "owner";
  knowledge = some (both_verified "tls.crt" "owner");
  mcp = some (both_verified "tls.crt" "owner");
  collector = some (server_verified "ca.crt" "");
}

-- A variable that is no override of the service's.
refuses_unknown : start outside "api.yaml" ("ANVILKIT_API_DEVELOPMENT_ENABLED=true" ∷ []) ≡ none
unfolding start apply_env has_prefix cut_after cut_before lookup
refuses_unknown = refl
