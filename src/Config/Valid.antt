-- ===== src/Config/Valid.antt =====
-- When a configuration is accepted, in terms of its values.
use anvilkit_agent_api.Base.{
  ◌*◌, ◌≤◌, String, ◌≡◌, ◌≢◌, ◌⊎◌, Bool, true, false, Option, none, some, [], All,
}
use anvilkit_agent_api.Base.Int.{ℤ, pos, negsuc, Within, ◌+ℤ◌}
use anvilkit_agent_api.Config.{
  ClientIdentity, OwnerSection, IdentitySection, ClientTls, Oidc, Auth, Sse, Config, Url,
  millisecond, second, minute, hour,
}
use anvilkit_agent_api.Config.Validate.{signing_algorithms, member}

-- A text that is not empty.
abbrev pub Given : String → Type 0
Given s = s ≢ ""

-- No more than, between signed integers.
infix 50 ◌≤ℤ◌
abbrev pub ◌≤ℤ◌ : ℤ → ℤ → Type 0
pos a ≤ℤ pos b = a ≤ b
pos a ≤ℤ negsuc b = ⊥
negsuc a ≤ℤ pos b = Unit {0}
negsuc a ≤ℤ negsuc b = b ≤ a

module _ {F : Type 0} (float_lt : F → F → Bool) (zero_ratio one_ratio : F) where
  pub record ListenIsValid (c : Config F) : Type 0 where
    pub listen : Given c.http.listen
    pub control_address : Given c.control.address
    pub ratio_not_below : float_lt c.telemetry.sample_ratio zero_ratio ≡ false
    pub ratio_not_above : float_lt one_ratio c.telemetry.sample_ratio ≡ false
    pub metrics_apart :
        Given c.telemetry.metrics_listen → c.telemetry.metrics_listen ≢ c.http.listen
    pub knowledge_timeout : Within second (10 * minute) c.knowledge.timeout
    pub mcp_timeout : Within second (10 * minute) c.mcp.timeout
    pub read_header_timeout : Within second minute c.http.read_header_timeout
    pub body_limit_bytes : Within 1024 16777216 c.http.body_limit_bytes
    pub shutdown_timeout : Within second (5 * minute) c.http.shutdown_timeout

abbrev pub IsAbsolute : Url → Type 0
IsAbsolute u = Given u.host × (u.has_user ≡ false) × (u.raw_query ≡ "") × (u.fragment ≡ "")

-- An absolute https URL, or an http one under the development guard.
abbrev pub IssuerIsValid : Bool → String → Option Url → Type 0
IssuerIsValid development issuer none = ⊥
IssuerIsValid development issuer (some u) =
    Given issuer
    × IsAbsolute u
    × ((u.scheme ≡ "https") ⊎ ((u.scheme ≡ "http") × (development ≡ true)))

-- One of the asymmetric algorithms.
abbrev pub IsSigning : String → Type 0
IsSigning a = member a signing_algorithms ≡ true

pub record OidcIsValid (development : Bool) (parsed : Option Url) (o : Oidc) : Type 0 where
  pub issuer : IssuerIsValid development o.issuer parsed
  pub audience : Given o.audience
  pub some_algorithm : o.algorithms ≢ []
  pub algorithms : All IsSigning o.algorithms
  pub clock_skew : Within 0 (5 * minute) o.clock_skew
  pub timeout : Within second minute o.timeout
  pub tenant : Given o.claims.tenant
  pub actor : Given o.claims.actor

abbrev pub AuthIsValid : (String → Option Url) → Bool → Auth → Type 0
AuthIsValid parse_url development a =
    ((a.mode ≡ "oidc") × OidcIsValid development (parse_url a.oidc.issuer) a.oidc)
    ⊎ ((a.mode ≡ "fixture") × (development ≡ true) × Given a.principals_file)

pub record SseIsValid (s : Sse) : Type 0 where
  pub heartbeat_interval : Within second (5 * minute) s.heartbeat_interval
  pub frame_buffer : Within 1 4096 s.frame_buffer
  pub slow_consumer_grace : Within (100 * millisecond) minute s.slow_consumer_grace
  pub write_timeout : Within (100 * millisecond) minute s.write_timeout
  pub write_given_up_first : s.write_timeout ≤ℤ s.slow_consumer_grace +ℤ s.heartbeat_interval
  pub max_streams : Within 1 65536 s.max_streams
  pub principal_positive : pos 1 ≤ℤ s.max_streams_per_principal
  pub principal_within : s.max_streams_per_principal ≤ℤ s.max_streams
  pub retry_base : Within second minute s.retry_base

-- A file of the client's own, or of the process identity.
abbrev pub GivenEither : String → String → Type 0
GivenEither own process = Given own ⊎ Given process

pub record FilesAreGiven (own : IdentitySection) (ci : ClientIdentity) : Type 0 where
  pub cert_file : GivenEither ci.mtls.cert_file own.cert_file
  pub key_file : GivenEither ci.mtls.key_file own.key_file
  pub ca_file : GivenEither ci.mtls.ca_file own.ca_file

-- mTLS with its files, or plaintext under the development guard.
abbrev pub ClientIsValid : Bool → IdentitySection → ClientIdentity → Type 0
ClientIsValid development own ci =
    ((ci.mode ≡ "mtls") × FilesAreGiven own ci) ⊎ ((ci.mode ≡ "development") × (development ≡ true))

abbrev pub PlacedIsValid : Bool → IdentitySection → OwnerSection → Type 0
PlacedIsValid development own o = Given o.address → ClientIsValid development own o.identity

abbrev pub TlsIsValid : Bool → ClientTls → Type 0
TlsIsValid development t =
    ((t.mode ≡ "development") × (development ≡ true))
    ⊎ ((t.mode ≡ "tls") × Given t.ca_file)
    ⊎ ((t.mode ≡ "mtls") × Given t.ca_file × Given t.cert_file × Given t.key_file)

pub record ConnectionsAreValid {F : Type 0} (c : Config F) : Type 0 where
  pub reload_interval : Within (100 * millisecond) hour c.identity.reload_interval
  pub control : ClientIsValid c.development c.identity c.control.identity
  pub knowledge : PlacedIsValid c.development c.identity c.knowledge
  pub mcp : PlacedIsValid c.development c.identity c.mcp
  pub collector : Given c.telemetry.otlp_endpoint → TlsIsValid c.development c.telemetry.otlp_tls

-- Every rule of the configuration.
pub record IsValid {F : Type 0} (float_lt : F → F → Bool) (zero_ratio one_ratio : F)
    (parse_url : String → Option Url) (c : Config F) : Type 0 where
  pub listeners : ListenIsValid float_lt zero_ratio one_ratio c
  pub auth : AuthIsValid parse_url c.development c.auth
  pub sse : SseIsValid c.sse
  pub profile : Given c.profile
  pub transfer_window : Within minute (24 * hour) c.transfer_window
  pub connections : ConnectionsAreValid c
