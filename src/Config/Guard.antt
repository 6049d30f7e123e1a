-- ===== src/Config/Guard.antt =====
-- The whole validation: which configurations it accepts, and what the development guard keeps out.
use mathlib.Core.Bool.{false≢true}
use text.Mathlib.TextEquality.{eq_iff}
use anvilkit_agent_api.Base.{
  String, ◌≡◌, refl, sym, ◌∙◌, ◌↔◌, ◌⊎◌, inl, inr, Bool, false, Option, none, some, [], Bool-cases,
}
use anvilkit_agent_api.Base.Text.{is_empty}
use anvilkit_agent_api.Base.Int.{outside_iff}
use anvilkit_agent_api.Config.{ClientIdentity, ClientTls, IdentitySection, Auth, Config, Url}
use anvilkit_agent_api.Config.Valid.{
  Given, AuthIsValid, IssuerIsValid, ClientIsValid, TlsIsValid, IsValid,
}
use anvilkit_agent_api.Config.Validate.{
  validate_auth, validate, listen_tests, sse_tests, rest_tests,
}
use anvilkit_agent_api.Config.Accepts.{append_nil_iff, not_empty_iff, listen_iff, sse_iff}
use anvilkit_agent_api.Config.Sections.{row_iff, auth_iff, identity_iff}

if_not_empty : {A : Type 0} (s : String) → (Given s → A) → (s ≡ "") ⊎ A
if_not_empty s f = elim (Bool-cases (is_empty s)) [
  | inl empty ↦ inl ((eq_iff s "").0 empty)
  | inr given ↦ inr (f ((not_empty_iff s).0 given))
]

-- The modes that validation leaves without the development guard.
guarded_client :
    (development : Bool) (own : IdentitySection) (ci : ClientIdentity)
    → ClientIsValid development own ci
    → development ≡ false
    → ci.mode ≡ "mtls"
guarded_client development own ci (inl (m, _)) production = m
guarded_client development own ci (inr (_, d)) production = absurd (false≢true (sym production ∙ d))

guarded_tls :
    (development : Bool) (t : ClientTls)
    → TlsIsValid development t
    → development ≡ false
    → (t.mode ≡ "tls") ⊎ (t.mode ≡ "mtls")
guarded_tls development t (inl (_, d)) production = absurd (false≢true (sym production ∙ d))
guarded_tls development t (inr (inl (m, _))) production = inl m
guarded_tls development t (inr (inr (m, _, _, _))) production = inr m

guarded_issuer :
    (development : Bool) (issuer : String) (parsed : Option Url)
    → IssuerIsValid development issuer parsed
    → development ≡ false
    → (u : Url) × (parsed ≡ some u) × (u.scheme ≡ "https")
guarded_issuer development issuer none v production = absurd v
guarded_issuer development issuer (some u) (_, _, inl https) production = (u, refl, https)
guarded_issuer development issuer (some u) (_, _, inr (_, d)) production =
    absurd (false≢true (sym production ∙ d))

guarded_auth :
    (parse_url : String → Option Url) (development : Bool) (a : Auth)
    → AuthIsValid parse_url development a
    → development ≡ false
    → (a.mode ≡ "oidc") × ((u : Url) × (parse_url a.oidc.issuer ≡ some u) × (u.scheme ≡ "https"))
guarded_auth parse_url development a (inl (m, o)) production =
    (m, guarded_issuer development a.oidc.issuer (parse_url a.oidc.issuer) o.issuer production)
guarded_auth parse_url development a (inr (_, d, _)) production =
    absurd (false≢true (sym production ∙ d))

module _ {F : Type 0} (float_lt : F → F → Bool) (zero_ratio one_ratio : F)
    (parse_url : String → Option Url) (c : Config F) where
  -- Validation reports no error exactly when the configuration keeps every rule: the listeners and
  -- their bounds, the authentication of the chosen mode, the stream's bounds with the write timeout
  -- no longer than the grace and the heartbeat together, the profile, the transfer window, and for
  -- each client mTLS with its files (its own or the process identity's) or plaintext under the
  -- development guard.
  pub validate_iff :
      (validate float_lt zero_ratio one_ratio parse_url c ≡ [])
      ↔ IsValid float_lt zero_ratio one_ratio parse_url c
  unfolding validate
  validate_iff = (
    λ h.
        let (listeners, h) = (row_iff (listen_tests float_lt zero_ratio one_ratio c) _).0 h in
        let (auth, h) = (append_nil_iff (validate_auth _ _ _) _).0 h in
        let (sse, h) = (row_iff (sse_tests c.sse) _).0 h in
        let (rest, connections) = (row_iff (rest_tests c.profile c.transfer_window) _).0 h in
        record {
          listeners = (listen_iff float_lt zero_ratio one_ratio c).0 listeners;
          auth = (auth_iff _ _ _).0 auth;
          sse = (sse_iff c.sse).0 sse;
          profile = (not_empty_iff _).0 rest.0;
          transfer_window = (outside_iff _ _ _).0 rest.1.0;
          connections = (identity_iff c).0 connections;
        },
    λ v. (row_iff (listen_tests float_lt zero_ratio one_ratio c) _).1 (
      (listen_iff float_lt zero_ratio one_ratio c).1 v.listeners,
      (append_nil_iff (validate_auth _ _ _) _).1 (
        (auth_iff _ _ _).1 v.auth,
        (row_iff (sse_tests c.sse) _).1 (
          (sse_iff c.sse).1 v.sse,
          (row_iff (rest_tests c.profile c.transfer_window) _).1 (
            ((not_empty_iff _).1 v.profile, ((outside_iff _ _ _).1 v.transfer_window, tt)),
            (identity_iff c).1 v.connections,
          ),
        ),
      ),
    ),
  )

  -- A configuration that validation accepts without development.enabled authenticates by OIDC with
  -- an https issuer, and the connection to the control plane is mutual TLS; so is that to each owner
  -- with an address, and the one to a collector with an endpoint is TLS.
  pub accepted_without_development :
      (validate float_lt zero_ratio one_ratio parse_url c ≡ [])
      → (c.development ≡ false)
      → (c.auth.mode ≡ "oidc")
        × ((u : Url) × (parse_url c.auth.oidc.issuer ≡ some u) × (u.scheme ≡ "https"))
        × (c.control.identity.mode ≡ "mtls")
        × ((c.knowledge.address ≡ "") ⊎ (c.knowledge.identity.mode ≡ "mtls"))
        × ((c.mcp.address ≡ "") ⊎ (c.mcp.identity.mode ≡ "mtls"))
        × ((c.telemetry.otlp_endpoint ≡ "")
            ⊎ (c.telemetry.otlp_tls.mode ≡ "tls")
            ⊎ (c.telemetry.otlp_tls.mode ≡ "mtls"))
  accepted_without_development accepted production =
      let v = validate_iff.0 accepted in
      let auth = guarded_auth parse_url c.development c.auth v.auth production in
      (
        auth.0,
        auth.1,
        guarded_client _ _ _ v.connections.control production,
        if_not_empty _ (λ given. guarded_client _ _ _ (v.connections.knowledge given) production),
        if_not_empty _ (λ given. guarded_client _ _ _ (v.connections.mcp given) production),
        if_not_empty _ (λ given.
            guarded_tls _ c.telemetry.otlp_tls (v.connections.collector given) production),
      )
