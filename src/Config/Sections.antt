-- ===== src/Config/Sections.antt =====
-- Validation by its sections: each accepts exactly what its rules allow.
use text.Mathlib.TextEquality.{eq_iff}
use anvilkit_agent_api.Base.{
  String, ◌≡◌, refl, ◌≢◌, ◌↔◌, inl, inr, Bool, false, ◌||◌, Option, List, [], ◌∷◌, ◌++◌, arith, All,
}
use anvilkit_agent_api.Base.Text.{is_empty}
use anvilkit_agent_api.Base.Int.{outside_iff}
use anvilkit_agent_api.Config.{
  IdentitySection, OwnerSection, Oidc, Auth, Telemetry, Config, Url, ConfigError,
}
use anvilkit_agent_api.Config.Valid.{
  Given, OidcIsValid, AuthIsValid, PlacedIsValid, TlsIsValid, ConnectionsAreValid,
}
use anvilkit_agent_api.Config.Validate.{
  collect, no_entry, oidc_audience, oidc_bounds, validate_algorithms, validate_issuer,
  validate_oidc, validate_auth, validate_client, validate_placed, validate_collector,
  validate_identity, reload_tests,
}
use anvilkit_agent_api.Config.Accepts.{
  collect_iff, append_nil_iff, not_empty_iff, issuer_iff, algorithms_iff, client_iff, tls_iff,
}

-- A row of tests before the rest of the errors.
pub row_iff :
    (tests : List (Bool × ConfigError)) (rest : List ConfigError)
    → ((collect tests ++ rest) ≡ []) ↔ (All (λ t. t.0 ≡ false) tests × (rest ≡ []))
row_iff tests rest = (
  λ h. let (a, b) = (append_nil_iff (collect tests) rest).0 h in ((collect_iff tests).0 a, b),
  λ h. (append_nil_iff (collect tests) rest).1 ((collect_iff tests).1 h.0, h.1),
)

no_entry_iff : (names : List String) → (no_entry names ≡ false) ↔ (names ≢ [])
no_entry_iff [] = (λ h. cc, λ h. absurd (h refl))
no_entry_iff (a ∷ rest) = (λ h e. cc, λ h. refl)

claims_iff :
    (o : Oidc)
    → ((is_empty o.claims.tenant || is_empty o.claims.actor) ≡ false)
      ↔ (Given o.claims.tenant × Given o.claims.actor)
claims_iff o = (
  λ h. (ground (arith, h, eq_iff o.claims.tenant ""), ground (arith, h, eq_iff o.claims.actor "")),
  λ h. rw ((not_empty_iff _).1 h.0, (not_empty_iff _).1 h.1) refl,
)

oidc_iff :
    (parse_url : String → Option Url) (o : Oidc) (development : Bool)
    → (validate_oidc parse_url o development ≡ []) ↔ OidcIsValid development (parse_url o.issuer) o
unfolding validate_oidc
oidc_iff parse_url o development = (
  λ h.
      let (issuer, h) = (append_nil_iff (validate_issuer _ _ _) _).0 h in
      let (rows, h) = (row_iff (oidc_audience o) _).0 h in
      let (algorithms, h) = (append_nil_iff (validate_algorithms _) _).0 h in
      let bounds = (collect_iff (oidc_bounds o)).0 h in
      record {
        issuer = (issuer_iff _ _ _).0 issuer;
        audience = (not_empty_iff _).0 rows.0;
        some_algorithm = (no_entry_iff _).0 rows.1.0;
        algorithms = (algorithms_iff _).0 algorithms;
        clock_skew = (outside_iff _ _ _).0 bounds.0;
        timeout = (outside_iff _ _ _).0 bounds.1.0;
        tenant = ((claims_iff o).0 bounds.1.1.0).0;
        actor = ((claims_iff o).0 bounds.1.1.0).1;
      },
  λ v. (append_nil_iff (validate_issuer _ _ _) _).1 (
    (issuer_iff _ _ _).1 v.issuer,
    (row_iff (oidc_audience o) _).1 (
      ((not_empty_iff _).1 v.audience, ((no_entry_iff _).1 v.some_algorithm, tt)),
      (append_nil_iff (validate_algorithms _) _).1 (
        (algorithms_iff _).1 v.algorithms,
        (collect_iff (oidc_bounds o)).1 (
          (outside_iff _ _ _).1 v.clock_skew,
          ((outside_iff _ _ _).1 v.timeout, ((claims_iff o).1 (v.tenant, v.actor), tt)),
        ),
      ),
    ),
  ),
)

pub auth_iff :
    (parse_url : String → Option Url) (a : Auth) (development : Bool)
    → (validate_auth parse_url a development ≡ []) ↔ AuthIsValid parse_url development a
unfolding validate_auth
auth_iff parse_url a development = (
  λ h. ground (
    arith,
    h,
    (oidc_iff parse_url a.oidc development).0,
    eq_iff a.mode "oidc",
    eq_iff a.mode "fixture",
    eq_iff a.principals_file "",
  ),
  λ h. elim h [
    | inl (m, o) ↦ rw (m, validate_auth) ((oidc_iff parse_url a.oidc development).1 o)
    | inr (m, d, file) ↦ rw (m, d, (not_empty_iff _).1 file, validate_auth) refl
  ],
)

placed_iff :
    (development : Bool) (own : IdentitySection) (name : String) (o : OwnerSection)
    → (validate_placed development own name o ≡ []) ↔ PlacedIsValid development own o
placed_iff development own name o = (
  λ h given. (client_iff development own name o.identity).0 (rw ((not_empty_iff _).1 given) at h),
  λ v. ground (
    arith,
    eq_iff o.address "",
    λ (given : Given o.address). (client_iff development own name o.identity).1 (v given),
  ),
)

collector_iff :
    {F : Type 0} (t : Telemetry F) (development : Bool)
    → (validate_collector t development ≡ [])
      ↔ (Given t.otlp_endpoint → TlsIsValid development t.otlp_tls)
collector_iff t development = (
  λ h given. (tls_iff t.otlp_tls _ development).0 (rw ((not_empty_iff _).1 given) at h),
  λ v. ground (
    arith,
    eq_iff t.otlp_endpoint "",
    λ (given : Given t.otlp_endpoint).
        (tls_iff t.otlp_tls "telemetry.otlp_tls" development).1 (v given),
  ),
)

pub identity_iff : {F : Type 0} (c : Config F) → (validate_identity c ≡ []) ↔ ConnectionsAreValid c
unfolding validate_identity
identity_iff c = (
  λ h.
      let (bounds, h) = (row_iff (reload_tests c.identity) _).0 h in
      let (control, h) = (append_nil_iff (validate_client _ _ _ _) _).0 h in
      let (knowledge, h) = (append_nil_iff (validate_placed _ _ _ c.knowledge) _).0 h in
      let (mcp, collector) = (append_nil_iff (validate_placed _ _ _ c.mcp) _).0 h in
      record {
        reload_interval = (outside_iff _ _ _).0 bounds.0;
        control = (client_iff _ _ _ _).0 control;
        knowledge = (placed_iff _ _ _ c.knowledge).0 knowledge;
        mcp = (placed_iff _ _ _ c.mcp).0 mcp;
        collector = (collector_iff c.telemetry _).0 collector;
      },
  λ v. (row_iff (reload_tests c.identity) _).1 (
    ((outside_iff _ _ _).1 v.reload_interval, tt),
    (append_nil_iff (validate_client _ _ _ _) _).1 (
      (client_iff _ _ _ _).1 v.control,
      (append_nil_iff (validate_placed _ _ _ c.knowledge) _).1 (
        (placed_iff _ _ _ c.knowledge).1 v.knowledge,
        (append_nil_iff (validate_placed _ _ _ c.mcp) _).1
            ((placed_iff _ _ _ c.mcp).1 v.mcp, (collector_iff c.telemetry _).1 v.collector),
      ),
    ),
  ),
)
