-- ===== src/Config/Environment.antt =====
-- The environment's overrides (internal/config/config.go, envOverrides and applyEnv) over the loaded
-- file, a map from dotted keys to values. koanf's Set is taken to store the value at its key.
use Prim.Native.Char.{code}
use mathlib.Core.Bool.{false≢true}
use Prim.Native.String.{String}
use text.Mathlib.Text.{◌==◌ as str_eq}
use text.Mathlib.TextEquality.{eq_iff}
use anvilkit_agent_api.Base.{
  ℕ, ◌≡◌, refl, sym, ◌∙◌, ◌≢◌, ◌↔◌, ◌⊎◌, inl, inr, Bool, true, false, not, ◌||◌, none, some, List,
  [], ◌∷◌, ◌==◌, if◌then◌else◌, arith, All, Bool-cases, Option-cases,
}
use anvilkit_agent_api.Base.Text.{cut_before}
use anvilkit_agent_api.Base.Dict.{lookup, insert, lookup-insert}

abbrev pub env_overrides : List (String × String)
env_overrides =
    ("ANVILKIT_API_LISTEN", "http.listen")
    ∷ ("ANVILKIT_API_CONTROL_ADDRESS", "control.address")
    ∷ ("ANVILKIT_API_AUTH_MODE", "auth.mode")
    ∷ ("ANVILKIT_API_PRINCIPALS_FILE", "auth.principals_file")
    ∷ ("ANVILKIT_API_AUTH_OIDC_ISSUER", "auth.oidc.issuer")
    ∷ ("ANVILKIT_API_AUTH_OIDC_AUDIENCE", "auth.oidc.audience")
    ∷ ("ANVILKIT_API_AUTH_OIDC_CA_FILE", "auth.oidc.ca_file")
    ∷ ("ANVILKIT_API_KNOWLEDGE_ADDRESS", "knowledge.address")
    ∷ ("ANVILKIT_API_MCP_ADDRESS", "mcp.address")
    ∷ ("ANVILKIT_API_TELEMETRY_OTLP_ENDPOINT", "telemetry.otlp_endpoint")
    ∷ ("ANVILKIT_API_TELEMETRY_METRICS_LISTEN", "telemetry.metrics_listen")
    ∷ ("ANVILKIT_API_IDENTITY_CERT_FILE", "identity.cert_file")
    ∷ ("ANVILKIT_API_IDENTITY_KEY_FILE", "identity.key_file")
    ∷ ("ANVILKIT_API_IDENTITY_CA_FILE", "identity.ca_file")
    ∷ []

-- What `strings.Cut` puts after a one-byte separator.
unfoldable pub cut_after : ℕ → String → String
cut_after sep String.[] = ""
cut_after sep (String.◌∷◌ c s) = let rest = cut_after sep s in if code c == sep then s else rest

unfoldable pub has_prefix : String → String → Bool
has_prefix String.[] s = true
has_prefix (String.◌∷◌ c p) String.[] = false
has_prefix (String.◌∷◌ c p) (String.◌∷◌ d s) =
    let rest = has_prefix p s in if code c == code d then rest else false

abbrev pub name_of : String → String
name_of kv = cut_before b'=' kv

-- Not one of the service's variables, or the one that names the file.
abbrev pub is_foreign : String → Bool
is_foreign name = not (has_prefix "ANVILKIT_API_" name) || str_eq name "ANVILKIT_API_CONFIG"

-- A key that the table sets.
unfoldable pub is_target : String → List (String × String) → Bool
is_target key [] = false
is_target key ((_, t) ∷ rest) = str_eq t key || is_target key rest

lookup-is_target :
    (name key : String) (rows : List (String × String))
    → lookup name rows ≡ some key
    → is_target key rows ≡ true
unfolding lookup is_target
lookup-is_target name key [] h = let stop : none ≡ some key = h in cc
lookup-is_target name key ((n, t) ∷ rest) h =
    ground (arith, h, eq_iff t key, lookup-is_target name key rest)

module _ (table : List (String × String)) where
  -- The loop over the environment: the map with its overrides, and the unknown names.
  unfoldable pub apply_env :
      List (String × String) → List String → List (String × String) × List String
  apply_env k [] = (k, [])
  apply_env k (kv ∷ rest) = elim (is_foreign (name_of kv)) [
    | true ↦ apply_env k rest
    | false ↦ elim (lookup (name_of kv) table) [
      | none ↦ (let (later, unknown) = apply_env k rest in (later, name_of kv ∷ unknown))
      | some key ↦ apply_env (insert key (cut_after b'=' kv) k) rest
    ]
  ]

  -- A variable that may stand in the environment.
  abbrev pub IsAllowed : String → Type 0
  IsAllowed kv = (is_foreign (name_of kv) ≡ true) ⊎ (lookup (name_of kv) table ≢ none)

  unknown_iff :
      (k : List (String × String)) (environ : List String)
      → ((apply_env k environ).1 ≡ []) ↔ All IsAllowed environ
  unfolding apply_env
  unknown_iff k [] = (λ h. tt, λ h. refl)
  unknown_iff k (kv ∷ rest) = elim (Bool-cases (is_foreign (name_of kv))) [
    | inl foreign ↦ (
      λ h. (inl foreign, (unknown_iff k rest).0 (rw (foreign, apply_env) at h)),
      λ v. rw (foreign, apply_env) ((unknown_iff k rest).1 v.1),
    )
    | inr own ↦ elim (Option-cases (lookup (name_of kv) table)) [
      | inl absent ↦ (
        λ h.
            let stop : name_of kv ∷ (apply_env k rest).1 ≡ [] = rw (own, absent, apply_env) at h in
            cc,
        λ v. elim v.0 [
          | inl foreign ↦ absurd (false≢true (sym own ∙ foreign))
          | inr listed ↦ absurd (listed absent)
        ],
      )
      | inr (key, found) ↦ (
        λ h. (
          inr (λ absent. let stop : some key ≡ none = sym found ∙ absent in cc),
          (unknown_iff (insert key (cut_after b'=' kv) k) rest).0 (rw (own, found, apply_env) at h),
        ),
        λ v.
            rw (own, found, apply_env)
              ((unknown_iff (insert key (cut_after b'=' kv) k) rest).1 v.1),
      )
    ]
  ]

  apply_env-lookup :
      (k : List (String × String)) (environ : List String) (key : String)
      → is_target key table ≡ false
      → lookup key (apply_env k environ).0 ≡ lookup key k
  unfolding apply_env
  apply_env-lookup k [] key h = refl
  apply_env-lookup k (kv ∷ rest) key h = elim (Bool-cases (is_foreign (name_of kv))) [
    | inl foreign ↦ rw (foreign, apply_env) (apply_env-lookup k rest key h)
    | inr own ↦ elim (Option-cases (lookup (name_of kv) table)) [
      | inl absent ↦ rw (own, absent, apply_env) (apply_env-lookup k rest key h)
      | inr (set, found) ↦
          rw (own, found, apply_env)
            (apply_env-lookup (insert set (cut_after b'=' kv) k) rest key h
              ∙ ground (
                arith,
                h,
                lookup-is_target (name_of kv) set table found,
                eq_iff set key,
                lookup-insert set key (cut_after b'=' kv) k,
              ))
    ]
  ]

-- The environment is accepted exactly where each variable is none of the service's, names the
-- configuration file, or is in the table of overrides; and no key that the table does not name is
-- changed by any environment.
pub apply_env_lem :
    (k : List (String × String)) (environ : List String) (key : String)
    → is_target key env_overrides ≡ false
    → (((apply_env env_overrides k environ).1 ≡ []) ↔ All (IsAllowed env_overrides) environ)
      × (lookup key (apply_env env_overrides k environ).0 ≡ lookup key k)
apply_env_lem k environ key h =
    (unknown_iff env_overrides k environ, apply_env-lookup env_overrides k environ key h)
