-- ===== src/Config/Accepts.antt =====
-- Validation accepts exactly the valid configurations, part by part.
use text.Mathlib.TextEquality.{eq_iff}
use anvilkit_agent_api.Base.{
  ◌*◌, String, ◌≡◌, refl, sym, ◌↔◌, inl, inr, Bool, true, false, ◌||◌, Option, none, some, List, [],
  ◌∷◌, ◌++◌, arith, All,
}
use anvilkit_agent_api.Base.Text.{is_empty}
use anvilkit_agent_api.Base.Int.{ℤ, pos, negsuc, Within, outside_iff, ◌+ℤ◌, ltb_ℤ, int64, below}
use anvilkit_agent_api.Config.{
  ClientIdentity, IdentitySection, ClientTls, Sse, Config, Url, ConfigError, millisecond, second,
  minute,
}
use anvilkit_agent_api.Config.Valid.{
  Given, ◌≤ℤ◌, ListenIsValid, IssuerIsValid, IsSigning, SseIsValid, GivenEither, FilesAreGiven,
  ClientIsValid, TlsIsValid,
}
use anvilkit_agent_api.Config.Validate.{
  collect, or_else, validate_algorithms, validate_issuer, listen_tests, sse_tests, resolved,
  validate_client, validate_tls,
}

pub collect_iff :
    (tests : List (Bool × ConfigError)) → (collect tests ≡ []) ↔ All (λ t. t.0 ≡ false) tests
collect_iff [] = (λ h. tt, λ h. refl)
collect_iff ((false, e) ∷ rest) =
    let (to, from) = collect_iff rest in (λ h. (refl, to h), λ h. from h.1)
collect_iff ((true, e) ∷ rest) = (λ h. cc, λ h. cc (h.0))

pub append_nil_iff {ℓ} : {A : Type ℓ} (xs ys : List A) → ((xs ++ ys) ≡ []) ↔ ((xs ≡ []) × (ys ≡ []))
append_nil_iff [] ys = (λ h. (refl, h), λ h. h.1)
append_nil_iff (x ∷ xs) ys = (λ h. cc, λ h. cc (h.0))

pub not_empty_iff : (s : String) → (is_empty s ≡ false) ↔ Given s
not_empty_iff s = ground (arith, eq_iff s "")

module _ {F : Type 0} (float_lt : F → F → Bool) (zero_ratio one_ratio : F) where
  pub listen_iff :
      (c : Config F)
      → All (λ t. t.0 ≡ false) (listen_tests float_lt zero_ratio one_ratio c)
        ↔ ListenIsValid float_lt zero_ratio one_ratio c
  listen_iff c = (
    λ h. record {
      listen = (not_empty_iff _).0 h.0;
      control_address = (not_empty_iff _).0 h.1.0;
      ratio_not_below = ground (arith, h.1.1.0);
      ratio_not_above = ground (arith, h.1.1.0);
      metrics_apart = ground (
        arith,
        h.1.1.1.0,
        eq_iff c.telemetry.metrics_listen "",
        eq_iff c.telemetry.metrics_listen c.http.listen,
      );
      knowledge_timeout = (outside_iff _ _ _).0 h.1.1.1.1.0;
      mcp_timeout = (outside_iff _ _ _).0 h.1.1.1.1.1.0;
      read_header_timeout = (outside_iff _ _ _).0 h.1.1.1.1.1.1.0;
      body_limit_bytes = (outside_iff _ _ _).0 h.1.1.1.1.1.1.1.0;
      shutdown_timeout = (outside_iff _ _ _).0 h.1.1.1.1.1.1.1.1.0;
    },
    λ v. (
      (not_empty_iff _).1 v.listen,
      (
        (not_empty_iff _).1 v.control_address,
        (
          ground (arith, v.ratio_not_below, v.ratio_not_above),
          (
            ground (
              arith,
              v.metrics_apart,
              eq_iff c.telemetry.metrics_listen "",
              eq_iff c.telemetry.metrics_listen c.http.listen,
            ),
            (
              (outside_iff _ _ _).1 v.knowledge_timeout,
              (
                (outside_iff _ _ _).1 v.mcp_timeout,
                (
                  (outside_iff _ _ _).1 v.read_header_timeout,
                  (
                    (outside_iff _ _ _).1 v.body_limit_bytes,
                    ((outside_iff _ _ _).1 v.shutdown_timeout, tt),
                  ),
                ),
              ),
            ),
          ),
        ),
      ),
    ),
  )

pub ltb_ℤ_iff : (a b : ℤ) → (ltb_ℤ b a ≡ false) ↔ (a ≤ℤ b)
ltb_ℤ_iff (pos a) (pos b) = ground arith
ltb_ℤ_iff (pos a) (negsuc b) = ground arith
ltb_ℤ_iff (negsuc a) (pos b) = ground arith
ltb_ℤ_iff (negsuc a) (negsuc b) = ground arith

-- Two durations in their bounds do not overflow.
int64_exact :
    (a b : ℤ)
    → Within (100 * millisecond) minute a
    → Within second (5 * minute) b
    → int64 (a +ℤ b) ≡ a +ℤ b
int64_exact (pos a) (pos b) h k = ground arith
int64_exact (pos a) (negsuc b) h k = absurd k
int64_exact (negsuc a) b h k = absurd h

positive_iff : (a : ℤ) → (below a 1 ≡ false) ↔ (pos 1 ≤ℤ a)
positive_iff (pos a) = ground arith
positive_iff (negsuc a) = ground arith

pub sse_iff : (s : Sse) → All (λ t. t.0 ≡ false) (sse_tests s) ↔ SseIsValid s
sse_iff s = (
  λ h.
      let grace = (outside_iff _ _ _).0 h.1.1.0 in
      let interval = (outside_iff _ _ _).0 h.0 in
      record {
        heartbeat_interval = interval;
        frame_buffer = (outside_iff _ _ _).0 h.1.0;
        slow_consumer_grace = grace;
        write_timeout = (outside_iff _ _ _).0 h.1.1.1.0;
        write_given_up_first =
            (ltb_ℤ_iff _ _).0 (rw (sym (int64_exact _ _ grace interval)) h.1.1.1.1.0);
        max_streams = (outside_iff _ _ _).0 h.1.1.1.1.1.0;
        principal_positive = (positive_iff _).0 (ground (arith, h.1.1.1.1.1.1.0));
        principal_within = (ltb_ℤ_iff _ _).0 (ground (arith, h.1.1.1.1.1.1.0));
        retry_base = (outside_iff _ _ _).0 h.1.1.1.1.1.1.1.0;
      },
  λ v. (
    (outside_iff _ _ _).1 v.heartbeat_interval,
    (
      (outside_iff _ _ _).1 v.frame_buffer,
      (
        (outside_iff _ _ _).1 v.slow_consumer_grace,
        (
          (outside_iff _ _ _).1 v.write_timeout,
          (
            rw (int64_exact _ _ v.slow_consumer_grace v.heartbeat_interval)
                ((ltb_ℤ_iff _ _).1 v.write_given_up_first),
            (
              (outside_iff _ _ _).1 v.max_streams,
              (
                ground (
                  arith,
                  (positive_iff _).1 v.principal_positive,
                  (ltb_ℤ_iff _ _).1 v.principal_within,
                ),
                ((outside_iff _ _ _).1 v.retry_base, tt),
              ),
            ),
          ),
        ),
      ),
    ),
  ),
)

pub issuer_iff :
    (development : Bool) (issuer : String) (parsed : Option Url)
    → (validate_issuer development issuer parsed ≡ []) ↔ IssuerIsValid development issuer parsed
unfolding validate_issuer
issuer_iff development issuer none = (λ h. ground (arith, h), λ h. absurd h)
issuer_iff development issuer (some u) = (
  λ h. ground (
    arith,
    h,
    eq_iff issuer "",
    eq_iff u.host "",
    eq_iff u.raw_query "",
    eq_iff u.fragment "",
    eq_iff u.scheme "https",
    eq_iff u.scheme "http",
  ),
  λ (given, (host, no_user, query, fragment), scheme). elim scheme [
    | inl https ↦
        rw
          (
            (not_empty_iff _).1 given,
            (not_empty_iff _).1 host,
            no_user,
            query,
            fragment,
            https,
            validate_issuer,
          )
          refl
    | inr (http, guarded) ↦
        rw
          (
            (not_empty_iff _).1 given,
            (not_empty_iff _).1 host,
            no_user,
            query,
            fragment,
            http,
            guarded,
            validate_issuer,
          )
          refl
  ],
)

pub algorithms_iff : (names : List String) → (validate_algorithms names ≡ []) ↔ All IsSigning names
unfolding validate_algorithms
algorithms_iff [] = (λ h. tt, λ h. refl)
algorithms_iff (a ∷ rest) = (
  λ h. ground (arith, h, (algorithms_iff rest).0),
  λ h. ground (arith, h, (algorithms_iff rest).1 h.1),
)

pub either_iff : (x y : String) → (is_empty (or_else x y) ≡ false) ↔ GivenEither x y
either_iff x y = (
  λ h. ground (arith, h, eq_iff x "", eq_iff y ""),
  λ h. ground (arith, h, eq_iff x "", eq_iff y ""),
)

files_iff :
    (own : IdentitySection) (ci : ClientIdentity)
    → ((is_empty (resolved own ci).cert_file
          || is_empty (resolved own ci).key_file
          || is_empty (resolved own ci).ca_file)
        ≡ false)
      ↔ FilesAreGiven own ci
unfolding resolved
files_iff own ci = (
  λ h. record {
    cert_file = (either_iff _ _).0 (ground (arith, h));
    key_file = (either_iff _ _).0 (ground (arith, h));
    ca_file = (either_iff _ _).0 (ground (arith, h));
  },
  λ f. ground (
    arith,
    (either_iff _ _).1 f.cert_file,
    (either_iff _ _).1 f.key_file,
    (either_iff _ _).1 f.ca_file,
  ),
)

pub client_iff :
    (development : Bool) (own : IdentitySection) (name : String) (ci : ClientIdentity)
    → (validate_client development own name ci ≡ []) ↔ ClientIsValid development own ci
unfolding validate_client
client_iff development own name ci = (
  λ h. ground (arith, h, (files_iff own ci).0, eq_iff ci.mode "mtls", eq_iff ci.mode "development"),
  λ h. elim h [
    | inl (m, f) ↦ rw (m, (files_iff own ci).1 f, validate_client) refl
    | inr (m, d) ↦ rw (m, d, validate_client) refl
  ],
)

pub tls_iff :
    (t : ClientTls) (name : String) (development : Bool)
    → (validate_tls t name development ≡ []) ↔ TlsIsValid development t
unfolding validate_tls
tls_iff t name development = (
  λ h. ground (
    arith,
    h,
    eq_iff t.mode "development",
    eq_iff t.mode "tls",
    eq_iff t.mode "mtls",
    eq_iff t.ca_file "",
    eq_iff t.cert_file "",
    eq_iff t.key_file "",
  ),
  λ h. elim h [
    | inl (m, d) ↦ rw (m, d, validate_tls) refl
    | inr (inl (m, ca)) ↦ rw (m, (not_empty_iff t.ca_file).1 ca, validate_tls) refl
    | inr (inr (m, ca, cert, key)) ↦
        rw
          (
            m,
            (not_empty_iff _).1 ca,
            (not_empty_iff _).1 cert,
            (not_empty_iff _).1 key,
            validate_tls,
          )
          refl
  ],
)
