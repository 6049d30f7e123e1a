-- ===== src/Config/Examples.antt =====
-- A production configuration, and the properties at it.
use anvilkit_agent_api.Base.{String, ◌≡◌, refl, ◌↔◌, false, some, [], ◌∷◌, ltb}
use anvilkit_agent_api.Config.Validate.{
  validate, validate_auth, validate_oidc, validate_issuer, validate_algorithms, member,
  validate_client, resolved, validate_tls, validate_identity,
}
use anvilkit_agent_api.Config.Valid.{IsValid}
use anvilkit_agent_api.Base.{List, String}
use anvilkit_agent_api.Base.Text.{cut_before}
use anvilkit_agent_api.Base.Dict.{lookup, insert, erase}
use anvilkit_agent_api.Config.Environment.{
  env_overrides, is_target, apply_env, has_prefix, cut_after,
}
use anvilkit_agent_api.Config.Sample.{production, parsed}
use anvilkit_agent_api.Config.Guard.{validate_iff}

production_accepted : validate ltb 0 100 parsed production ≡ []
unfolding validate validate_auth validate_oidc validate_issuer validate_algorithms member
    validate_client resolved validate_tls validate_identity
production_accepted = refl

validate_iff_example :
    (validate ltb 0 100 parsed production ≡ []) ↔ IsValid ltb 0 100 parsed production
validate_iff_example = validate_iff ltb 0 100 parsed production

abbrev environ : List String
environ = "PATH=/bin" ∷ "ANVILKIT_API_CONFIG=/etc/api.yaml" ∷ "ANVILKIT_API_LISTEN=:8080" ∷ []

abbrev file_values : List (String × String)
file_values = ("auth.mode", "oidc") ∷ ("sse.frame_buffer", "64") ∷ []

buffer_apart : is_target "sse.frame_buffer" env_overrides ≡ false
unfolding is_target
buffer_apart = refl

listen_overridden :
    lookup "http.listen" (apply_env env_overrides file_values environ).0 ≡ some ":8080"
unfolding apply_env lookup insert erase has_prefix cut_before cut_after
listen_overridden = refl
