-- ===== src/Access/Examples.antt =====
-- A principals file of one developer, and the properties at it.
use Prim.Native.String.{String}
use mathlib.Core.List.{Mem}
use text.Mathlib.TextEquality.{eq_iff}
use anvilkit_agent_api.Base.{◌≡◌, refl, ◌≢◌, some, List, [], ◌∷◌, arith}
use anvilkit_agent_api.Base.Text.{utf8}
use anvilkit_agent_api.Access.{
  Entry, after, passed, principal_of, authenticate, any_malformed, load, verify, IsWellFormed,
  fixture_passed,
}

abbrev kim : Entry
kim = record { tenant_id = "acme"; project_id = "site"; actor_id = "kim"; roles = "editor" ∷ [] }

abbrev entries : List (String × Entry)
entries = ("0123456789abcdef", kim) ∷ []

entries_load : load entries ≡ some entries
unfolding load any_malformed utf8
entries_load = refl

kim_passes : authenticate (verify entries) "Bearer 0123456789abcdef" ≡ passed (principal_of kim)
unfolding authenticate after verify
kim_passes = refl

fixture_passed_example :
    (token : String) × (e : Entry) × (after "Bearer " "Bearer 0123456789abcdef" ≡ some token)
    × Mem (token, e) entries
    × IsWellFormed token e
    × (principal_of kim ≡ principal_of e)
fixture_passed_example =
    fixture_passed entries entries "Bearer 0123456789abcdef" (principal_of kim) entries_load
      kim_passes

token_given : ◌≢◌ {A = String} "0123456789abcdef" ""
token_given e = ground (arith, e, eq_iff "0123456789abcdef" "")
