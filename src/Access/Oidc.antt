-- ===== src/Access/Oidc.antt =====
-- The OIDC verifier (internal/adapters/oidcauth/oidcauth.go). go-oidc checks the token's signature,
-- issuer and audience and decodes its claims: `Members`, or nothing where it refuses. Instants are
-- nanoseconds, and a claim that is a number is what int64 makes of it.
pub mod Sound
mod Examples
use Prim.Native.Char.{Char, code}
use Prim.Native.String.{String}
use Prim.Native.String
use text.Mathlib.Text.{◌==◌ as str_eq}
use anvilkit_agent_api.Base.{
  ℕ, zero, suc, ◌+◌, ◌-◌, ◌*◌, Bool, true, false, not, ◌&&◌, ◌||◌, Option, none, some, List, [],
  ◌∷◌, ◌++◌, ltb, leb, ◌==◌, ◌>>=◌, if◌then◌else◌, length,
}
use anvilkit_agent_api.Base.Text.{is_empty, utf8}
use anvilkit_agent_api.Base.Int.{ℤ, pos, negsuc, ◌+ℤ◌, ltb_ℤ}
use anvilkit_agent_api.Identity.Spiffe.{split}
use anvilkit_agent_api.Access.{Principal}

-- A decoded claim.
mutual
  pub data Claim : Type 0 where
    null : Claim
    word : String → Claim
    number : ℤ → Claim
    flag : Bool → Claim
    items : Items → Claim
    object : Members → Claim

  pub data Items : Type 0 where
    no_item : Items
    item : Claim → Items → Items

  pub data Members : Type 0 where
    no_member : Members
    member : String → Claim → Members → Members

-- The claim names of the principal.
pub record Claims : Type 0 where
  pub tenant : String
  pub project : String
  pub actor : String
  pub roles : String

-- `m[part]`
unfoldable pub member_of : String → Members → Claim
member_of part no_member = null
member_of part (member name c rest) = if str_eq name part then c else member_of part rest

abbrev descend : String → Claim → Claim
descend part (object m) = member_of part m
descend part _ = null

-- Once the value is no object, the rest of the path gives nil.
unfoldable pub lookup_from : Claim → List String → Claim
lookup_from c [] = c
lookup_from c (part ∷ rest) = lookup_from (descend part c) rest

unfoldable pub lookup : Members → String → Claim
lookup claims path = lookup_from (object claims) (split b'.' path)

abbrev pub as_text : Claim → String
as_text (word s) = s
as_text _ = ""

abbrev is_lower : Char → Bool
is_lower c = leb b'a' (code c) && leb (code c) b'z'

abbrev is_role_char : Char → Bool
is_role_char c =
    is_lower c || (leb b'0' (code c) && leb (code c) b'9') || code c == b'_' || code c == b'-'

-- `[a-z0-9_-]{0,n}$`
unfoldable pub role_rest : ℕ → String → Bool
role_rest n String.[] = true
role_rest zero (String.◌∷◌ c s) = false
role_rest (suc n) (String.◌∷◌ c s) = is_role_char c && role_rest n s

-- `role`
unfoldable pub is_role : String → Bool
is_role String.[] = false
is_role (String.◌∷◌ c s) = is_lower c && role_rest 63 s

unfoldable pub seen : String → List String → Bool
seen s [] = false
seen s (t ∷ ts) = str_eq t s || seen s ts

unfoldable pub count_items : Items → ℕ
count_items no_item = 0
count_items (item _ rest) = suc (count_items rest)

-- The loop over the items, each role once.
unfoldable pub collect_roles : Items → List String → Option (List String)
collect_roles no_item out = some out
collect_roles (item (word s) rest) out =
    let again = collect_roles rest out in
    let longer = collect_roles rest (out ++ s ∷ []) in
    if not (is_role s) then none else if seen s out then again else longer
collect_roles (item _ rest) out = none

unfoldable pub roles_of : Claim → Option (List String)
roles_of null = some []
roles_of (items list) = if ltb 32 (count_items list) then none else collect_roles list []
roles_of _ = none

-- One field of the principal: an empty path reads none, and any other is required.
unfoldable pub read_field : Members → String → Option String
read_field claims path =
    if is_empty path
    then some ""
    else if is_empty (as_text (lookup claims path))
        || ltb 128 (length (utf8 (as_text (lookup claims path))))
    then none
    else some (as_text (lookup claims path))

unfoldable pub read_roles : Members → String → Option (List String)
read_roles claims path = if is_empty path then some [] else roles_of (lookup claims path)

-- time.Unix(n, 0)
abbrev pub unix : ℤ → ℤ
unix (pos n) = pos (n * 1000000000)
unix (negsuc n) = negsuc ((n + 1) * 1000000000 - 1)

abbrev pub expired : ℤ → ℤ → Claim → Bool
expired now skew (number exp) = not (ltb_ℤ now (unix exp +ℤ skew))
expired now skew _ = true

abbrev pub early : ℤ → ℤ → Claim → Bool
early now skew (number nbf) = ltb_ℤ (now +ℤ skew) (unix nbf)
early now skew _ = false

unfoldable pub principal_from : Claims → Members → Option Principal
principal_from names claims = do
  tenant ← read_field claims names.tenant
  actor ← read_field claims names.actor
  project ← read_field claims names.project
  roles ← read_roles claims names.roles
  some (record { tenant_id = tenant; project_id = project; actor_id = actor; roles = roles })

abbrev pub verify_claims : Claims → ℤ → ℤ → Members → Option Principal
verify_claims names skew now claims =
    if expired now skew (member_of "exp" claims) || early now skew (member_of "nbf" claims)
    then none
    else principal_from names claims

-- `verified` is go-oidc's part for the bearer token.
unfoldable pub verify : (String → Option Members) → Claims → ℤ → ℤ → String → Option Principal
verify verified names skew now bearer = elim (verified bearer) [
  | none ↦ none
  | some claims ↦ verify_claims names skew now claims
]
