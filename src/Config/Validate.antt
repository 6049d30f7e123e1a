-- ===== src/Config/Validate.antt =====
-- Validation (internal/config/config.go, validate and the functions that it calls): the errors of a
-- configuration, in the order in which the code appends them. A Go map has no order, so the two
-- loops over one take their entries as they are written in the source.
use text.Mathlib.Text.{◌==◌}
use anvilkit_agent_api.Base.{
  ℕ, ◌*◌, ◌^◌, String, Bool, true, false, not, ◌&&◌, ◌||◌, Option, none, some, List, [], ◌∷◌, ◌++◌,
  if◌then◌else◌,
}
use anvilkit_agent_api.Base.Text.{is_empty}
use anvilkit_agent_api.Base.Int.{ℤ, below, above, ltb_ℤ, int64, ◌+ℤ◌}
use anvilkit_agent_api.Config.{
  MtlsFiles, ClientIdentity, OwnerSection, IdentitySection, ClientTls, Oidc, Auth, Sse, Telemetry,
  Config, Url, ConfigError, required, outside, needs_development, unknown_mode, missing_files,
  metrics_on_public_listen, write_timeout_too_long, issuer_not_absolute, no_algorithm,
  bad_algorithm, millisecond, second, minute, hour, max_shutdown_timeout,
}

-- The errors of a row of `if test { errs = append(errs, e) }`.
abbrev pub collect : List (Bool × ConfigError) → List ConfigError
collect [] = []
collect ((test, e) ∷ rest) = if test then e ∷ collect rest else collect rest

abbrev pub beyond : ℤ → ℕ → ℕ → Bool
beyond x lo hi = below x lo || above x hi

-- `x == "" ? y : x`
abbrev pub or_else : String → String → String
or_else x y = if is_empty x then y else x

abbrev pub signing_algorithms : List String
signing_algorithms =
    "RS256" ∷ "RS384" ∷ "RS512" ∷ "ES256" ∷ "ES384" ∷ "ES512" ∷ "PS256" ∷ "PS384" ∷ "PS512"
    ∷ "EdDSA" ∷ []

unfoldable pub member : String → List String → Bool
member a [] = false
member a (b ∷ bs) = b == a || member a bs

unfoldable pub validate_algorithms : List String → List ConfigError
validate_algorithms [] = []
validate_algorithms (a ∷ rest) =
    let later = validate_algorithms rest in
    if not (member a signing_algorithms) then bad_algorithm a ∷ later else later

abbrev pub is_absolute : Url → Bool
is_absolute u = not (
    is_empty u.host
    || u.has_user
    || not (is_empty u.raw_query)
    || not (is_empty u.fragment)
    || (not (u.scheme == "https") && not (u.scheme == "http")))

-- The switch on the issuer; `parsed` is what url.Parse makes of it.
unfoldable pub validate_issuer : Bool → String → Option Url → List ConfigError
validate_issuer development issuer none =
    if is_empty issuer then required "auth.oidc.issuer" ∷ [] else issuer_not_absolute ∷ []
validate_issuer development issuer (some u) =
    if is_empty issuer
    then required "auth.oidc.issuer" ∷ []
    else if not (is_absolute u)
    then issuer_not_absolute ∷ []
    else if u.scheme == "http" && not development
    then needs_development "auth.oidc.issuer" ∷ []
    else []

abbrev pub no_entry : List String → Bool
no_entry [] = true
no_entry (_ ∷ _) = false

abbrev pub oidc_audience : Oidc → List (Bool × ConfigError)
oidc_audience o =
    (is_empty o.audience, required "auth.oidc.audience")
    ∷ (no_entry o.algorithms, no_algorithm)
    ∷ []

abbrev pub oidc_bounds : Oidc → List (Bool × ConfigError)
oidc_bounds o =
    (beyond o.clock_skew 0 (5 * minute), outside "auth.oidc.clock_skew")
    ∷ (beyond o.timeout second minute, outside "auth.oidc.timeout")
    ∷ (is_empty o.claims.tenant || is_empty o.claims.actor, required "auth.oidc.claims")
    ∷ []

module _ (parse_url : String → Option Url) where
  unfoldable pub validate_oidc : Oidc → Bool → List ConfigError
  validate_oidc o development =
      validate_issuer development o.issuer (parse_url o.issuer)
      ++ (collect (oidc_audience o)
          ++ (validate_algorithms o.algorithms ++ collect (oidc_bounds o)))

-- validate, up to the switch on auth.mode. The float64 comparisons are parameters.
module _ {F : Type 0} (float_lt : F → F → Bool) (zero_ratio one_ratio : F) where
  abbrev pub listen_tests : Config F → List (Bool × ConfigError)
  listen_tests c =
      (is_empty c.http.listen, required "http.listen")
      ∷ (is_empty c.control.address, required "control.address")
      ∷ (
        float_lt c.telemetry.sample_ratio zero_ratio || float_lt one_ratio c.telemetry.sample_ratio,
        outside "telemetry.sample_ratio",
      )
      ∷ (
        not (is_empty c.telemetry.metrics_listen) && c.telemetry.metrics_listen == c.http.listen,
        metrics_on_public_listen,
      )
      ∷ (beyond c.knowledge.timeout second (10 * minute), outside "knowledge.timeout")
      ∷ (beyond c.mcp.timeout second (10 * minute), outside "mcp.timeout")
      ∷ (beyond c.http.read_header_timeout second minute, outside "http.read_header_timeout")
      ∷ (beyond c.http.body_limit_bytes (2 ^ 10) (2 ^ 24), outside "http.body_limit_bytes")
      ∷ (
        beyond c.http.shutdown_timeout second max_shutdown_timeout,
        outside "http.shutdown_timeout",
      )
      ∷ []

-- From the heartbeat's bound to the end of validate.
abbrev pub sse_tests : Sse → List (Bool × ConfigError)
sse_tests s =
    (beyond s.heartbeat_interval second (5 * minute), outside "sse.heartbeat_interval")
    ∷ (beyond s.frame_buffer 1 4096, outside "sse.frame_buffer")
    ∷ (beyond s.slow_consumer_grace (100 * millisecond) minute, outside "sse.slow_consumer_grace")
    ∷ (beyond s.write_timeout (100 * millisecond) minute, outside "sse.write_timeout")
    ∷ (
      ltb_ℤ (int64 (s.slow_consumer_grace +ℤ s.heartbeat_interval)) s.write_timeout,
      write_timeout_too_long,
    )
    ∷ (beyond s.max_streams 1 65536, outside "sse.max_streams")
    ∷ (
      below s.max_streams_per_principal 1 || ltb_ℤ s.max_streams s.max_streams_per_principal,
      outside "sse.max_streams_per_principal",
    )
    ∷ (beyond s.retry_base second minute, outside "sse.retry_base")
    ∷ []

abbrev pub rest_tests : String → ℤ → List (Bool × ConfigError)
rest_tests profile transfer_window =
    (is_empty profile, required "preparations.profile")
    ∷ (beyond transfer_window minute (24 * hour), outside "artifacts.transfer_window")
    ∷ []

unfoldable pub validate_auth : (String → Option Url) → Auth → Bool → List ConfigError
validate_auth parse_url a development =
    if a.mode == "oidc"
    then validate_oidc parse_url a.oidc development
    else if a.mode == "fixture"
    then collect (
        (not development, needs_development "auth.mode")
        ∷ (is_empty a.principals_file, required "auth.principals_file")
        ∷ [])
    else unknown_mode "auth.mode" ∷ []

-- A client's files, each from the process identity where the client names none.
unfoldable pub resolved : IdentitySection → ClientIdentity → MtlsFiles
resolved own ci = record {
  cert_file = or_else ci.mtls.cert_file own.cert_file;
  key_file = or_else ci.mtls.key_file own.key_file;
  ca_file = or_else ci.mtls.ca_file own.ca_file;
  server_name = ci.mtls.server_name;
}

-- The switch on one client's mode.
unfoldable pub validate_client : Bool → IdentitySection → String → ClientIdentity → List ConfigError
unfolding resolved
validate_client development own name ci =
    if ci.mode == "mtls"
    then collect (
        (
          is_empty (resolved own ci).cert_file
              || is_empty (resolved own ci).key_file
              || is_empty (resolved own ci).ca_file,
          missing_files name,
        )
        ∷ [])
    else if ci.mode == "development"
    then collect ((not development, needs_development name) ∷ [])
    else unknown_mode name ∷ []

-- An owner without an address is no client.
abbrev pub validate_placed : Bool → IdentitySection → String → OwnerSection → List ConfigError
validate_placed development own name o =
    if is_empty o.address then [] else validate_client development own name o.identity

unfoldable pub validate_tls : ClientTls → String → Bool → List ConfigError
validate_tls t name development =
    if t.mode == "development"
    then collect ((not development, needs_development name) ∷ [])
    else if t.mode == "tls"
    then collect ((is_empty t.ca_file, missing_files name) ∷ [])
    else if t.mode == "mtls"
    then collect (
        (is_empty t.ca_file || is_empty t.cert_file || is_empty t.key_file, missing_files name)
        ∷ [])
    else unknown_mode name ∷ []

abbrev pub validate_collector : {F : Type 0} → Telemetry F → Bool → List ConfigError
validate_collector t development =
    if is_empty t.otlp_endpoint
    then []
    else validate_tls t.otlp_tls "telemetry.otlp_tls" development

abbrev pub reload_tests : IdentitySection → List (Bool × ConfigError)
reload_tests own =
    (beyond own.reload_interval (100 * millisecond) hour, outside "identity.reload_interval") ∷ []

unfoldable pub validate_identity : {F : Type 0} → Config F → List ConfigError
validate_identity c =
    collect (reload_tests c.identity)
    ++ (validate_client c.development c.identity "control" c.control.identity
        ++ (validate_placed c.development c.identity "knowledge" c.knowledge
            ++ (validate_placed c.development c.identity "mcp" c.mcp
                ++ validate_collector c.telemetry c.development)))

unfoldable pub validate :
    {F : Type 0} → (F → F → Bool) → F → F → (String → Option Url) → Config F → List ConfigError
validate float_lt zero_ratio one_ratio parse_url c =
    collect (listen_tests float_lt zero_ratio one_ratio c)
    ++ (validate_auth parse_url c.auth c.development
        ++ (collect (sse_tests c.sse)
            ++ (collect (rest_tests c.profile c.transfer_window) ++ validate_identity c)))
