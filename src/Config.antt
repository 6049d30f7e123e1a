-- ===== src/Config.antt =====
-- The configuration snapshot (internal/config/config.go): the sections that validation reads, and
-- what an error of it names. A float64 is a type with its `<`, 0 and 1 (section parameters of the
-- children), and a URL is what net/url makes of a text.
pub mod Validate
pub mod Valid
pub mod Accepts
pub mod Sections
pub mod Guard
pub mod Environment
pub mod Sample
mod Examples
use anvilkit_agent_api.Base.{ℕ, String, Bool, Option, List}
use anvilkit_agent_api.Base.Int.{ℤ}

pub record Http : Type 0 where
  pub listen : String
  pub read_header_timeout : ℤ
  pub body_limit_bytes : ℤ
  pub shutdown_timeout : ℤ

pub record MtlsFiles : Type 0 where
  pub cert_file : String
  pub key_file : String
  pub ca_file : String
  pub server_name : String

pub record ClientIdentity : Type 0 where
  pub mode : String
  pub mtls : MtlsFiles

-- The sections Control and Owner; Control has no timeout.
pub record ControlSection : Type 0 where
  pub address : String
  pub identity : ClientIdentity

pub record OwnerSection : Type 0 where
  pub address : String
  pub timeout : ℤ
  pub identity : ClientIdentity

pub record IdentitySection : Type 0 where
  pub cert_file : String
  pub key_file : String
  pub ca_file : String
  pub reload_interval : ℤ

pub record ClientTls : Type 0 where
  pub mode : String
  pub ca_file : String
  pub cert_file : String
  pub key_file : String
  pub server_name : String

pub record OidcClaims : Type 0 where
  pub tenant : String
  pub project : String
  pub actor : String
  pub roles : String

pub record Oidc : Type 0 where
  pub issuer : String
  pub audience : String
  pub algorithms : List String
  pub clock_skew : ℤ
  pub ca_file : String
  pub timeout : ℤ
  pub claims : OidcClaims

pub record Auth : Type 0 where
  pub mode : String
  pub principals_file : String
  pub oidc : Oidc

pub record Sse : Type 0 where
  pub heartbeat_interval : ℤ
  pub frame_buffer : ℤ
  pub slow_consumer_grace : ℤ
  pub write_timeout : ℤ
  pub max_streams : ℤ
  pub max_streams_per_principal : ℤ
  pub retry_base : ℤ

pub record Telemetry (F : Type 0) : Type 0 where
  pub otlp_endpoint : String
  pub sample_ratio : F
  pub metrics_listen : String
  pub otlp_tls : ClientTls

-- `development` is development.enabled, `profile` preparations.profile, `transfer_window`
-- artifacts.transfer_window.
pub record Config (F : Type 0) : Type 0 where
  pub development : Bool
  pub identity : IdentitySection
  pub telemetry : Telemetry F
  pub http : Http
  pub control : ControlSection
  pub auth : Auth
  pub sse : Sse
  pub transfer_window : ℤ
  pub profile : String
  pub knowledge : OwnerSection
  pub mcp : OwnerSection

-- The parts of a parsed URL that validation reads.
pub record Url : Type 0 where
  pub scheme : String
  pub host : String
  pub has_user : Bool
  pub raw_query : String
  pub fragment : String

-- What an error names; the message that says so in words is left out.
pub data ConfigError : Type 0 where
  required outside needs_development unknown_mode missing_files : String → ConfigError
  metrics_on_public_listen write_timeout_too_long issuer_not_absolute no_algorithm : ConfigError
  bad_algorithm : String → ConfigError

abbrev pub millisecond : ℕ
millisecond = 1000000

abbrev pub second : ℕ
second = 1000000000

abbrev pub minute : ℕ
minute = 60000000000

abbrev pub hour : ℕ
hour = 3600000000000

abbrev pub max_shutdown_timeout : ℕ
max_shutdown_timeout = 300000000000
