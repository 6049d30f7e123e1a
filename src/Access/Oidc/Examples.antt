-- ===== src/Access/Oidc/Examples.antt =====
-- A token with its claims, and the property at it.
use Prim.Native.String.{String}
use text.Mathlib.Text.{◌==◌}
use anvilkit_agent_api.Base.{◌≡◌, refl, Option, none, some, [], ◌∷◌, if◌then◌else◌}
use anvilkit_agent_api.Base.Text.{utf8}
use anvilkit_agent_api.Base.Int.{pos}
use anvilkit_agent_api.Identity.Spiffe.{split}
use anvilkit_agent_api.Access.{Principal}
use anvilkit_agent_api.Access.Oidc.{
  word, number, items, no_item, item, no_member, member, Members, Claims, member_of, lookup,
  lookup_from, is_role, role_rest, seen, count_items, collect_roles, roles_of, read_field,
  read_roles, principal_from, verify,
}
use anvilkit_agent_api.Access.Oidc.Sound.{IsVouched, verify_sound}

abbrev names : Claims
names = record { tenant = "tenant"; project = ""; actor = "sub"; roles = "roles" }

abbrev claims : Members
claims = member "exp" (number (pos 100)) (
    member "tenant" (word "acme") (
      member "sub" (word "kim")
        (member "roles" (items (item (word "editor") (item (word "editor") no_item))) no_member)))

abbrev verified : String → Option Members
verified bearer = if bearer == "t" then some claims else none

abbrev kim : Principal
kim = record { tenant_id = "acme"; project_id = ""; actor_id = "kim"; roles = "editor" ∷ [] }

token_verifies : verify verified names (pos 0) (pos 99000000000) "t" ≡ some kim
unfolding verify principal_from read_field read_roles roles_of collect_roles count_items seen
    is_role role_rest lookup lookup_from member_of split utf8
token_verifies = refl

verify_sound_example : IsVouched verified names (pos 0) (pos 99000000000) "t" kim
verify_sound_example = verify_sound verified names (pos 0) (pos 99000000000) "t" kim token_verifies
