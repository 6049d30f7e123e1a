-- ===== src/Access/Oidc/Sound.antt =====
-- What the claims of an accepted token were.
use mathlib.Core.Path.{subst}
use mathlib.Core.Option.{some-injective}
use text.Mathlib.Text.{◌==◌ as str_eq}
use text.Mathlib.TextEquality.{eq_iff}
use Prim.Native.String.{String}
use anvilkit_agent_api.Base.{
  ◌+◌, ◌≤◌, ◌≡◌, refl, sym, ◌≢◌, ◌⊎◌, inl, inr, true, false, ◌||◌, Option, none, some, List, [],
  ◌∷◌, ◌++◌, ltb, length, length-append, All, All-append, arith, Bool-cases, Option-cases,
}
use anvilkit_agent_api.Base.Text.{is_empty, utf8}
use anvilkit_agent_api.Base.Int.{ℤ}
use anvilkit_agent_api.Access.{Principal}
use anvilkit_agent_api.Access.Oidc.{
  Claim, null, word, items, Items, no_item, item, Members, Claims, member_of, lookup, as_text,
  is_role, seen, count_items, collect_roles, roles_of, read_field, read_roles, principal_from,
  verify, expired, early,
}

-- No role twice.
unfoldable pub Distinct : List String → Type 0
Distinct [] = Unit {0}
Distinct (s ∷ ss) = (seen s ss ≡ false) × Distinct ss

seen-append :
    (t s : String) (ss : List String)
    → seen t ss ≡ false
    → str_eq s t ≡ false
    → seen t (ss ++ s ∷ []) ≡ false
unfolding seen
seen-append t s [] h e = ground (arith, e)
seen-append t s (x ∷ xs) h e = ground (arith, h, seen-append t s xs, e)

Distinct-concat :
    (s : String) (ss : List String) → Distinct ss → seen s ss ≡ false → Distinct (ss ++ s ∷ [])
unfolding Distinct seen
Distinct-concat s [] d h = (refl, tt)
Distinct-concat s (x ∷ xs) (new, d) h = (
  seen-append x s xs new (ground (arith, h, eq_iff x s, eq_iff s x)),
  Distinct-concat s xs d (ground (arith, h)),
)

-- At most 32 role names, each once.
pub record AreRoles (roles : List String) : Type 0 where
  pub names : All (λ s. is_role s ≡ true) roles
  pub distinct : Distinct roles
  pub bounded : length roles ≤ 32

-- What the loop makes of the items from the roles collected before them.
record Collected (list : Items) (out roles : List String) : Type 0 where
  names : All (λ s. is_role s ≡ true) roles
  distinct : Distinct roles
  bounded : length roles ≤ length out + count_items list

collect_roles-Collected :
    (list : Items) (out roles : List String)
    → collect_roles list out ≡ some roles
    → All (λ s. is_role s ≡ true) out
    → Distinct out
    → Collected list out roles
unfolding collect_roles count_items
collect_roles-Collected no_item out roles h a d =
    subst (λ r. Collected no_item out r) (some-injective out roles h)
      (record { names = a; distinct = d; bounded = omega arith })
collect_roles-Collected (item (word s) rest) out roles h a d = elim (Bool-cases (is_role s)) [
  | inr bad ↦ let stop : none ≡ some roles = rw (bad, collect_roles) at h in cc
  | inl good ↦ elim (Bool-cases (seen s out)) [
    | inl again ↦
        let v = collect_roles-Collected rest out roles (rw (good, again, collect_roles) at h) a d in
        record { names = v.names; distinct = v.distinct; bounded = ground (arith, v.bounded) }
    | inr new ↦
        let v =
          collect_roles-Collected rest (out ++ s ∷ []) roles (rw (good, new, collect_roles) at h)
            (All-append (λ t. is_role t ≡ true) out (s ∷ []) a (good, tt))
            (Distinct-concat s out d new) in
        record {
          names = v.names;
          distinct = v.distinct;
          bounded = ground (arith, v.bounded, length-append out (s ∷ []));
        }
  ]
]
collect_roles-Collected (item _ rest) out roles h a d = let stop : none ≡ some roles = h in cc

no_roles : AreRoles []
unfolding Distinct
no_roles = record { names = tt; distinct = tt; bounded = omega arith }

roles_of-AreRoles : (c : Claim) (roles : List String) → roles_of c ≡ some roles → AreRoles roles
unfolding roles_of Distinct
roles_of-AreRoles null roles h = subst AreRoles (some-injective [] roles h) no_roles
roles_of-AreRoles (items list) roles h = elim (Bool-cases (ltb 32 (count_items list))) [
  | inl many ↦ let stop : none ≡ some roles = rw (many, roles_of) at h in cc
  | inr few ↦
      let v = collect_roles-Collected list [] roles (rw (few, roles_of) at h) tt tt in
      record { names = v.names; distinct = v.distinct; bounded = ground (arith, v.bounded, few) }
]
roles_of-AreRoles _ roles h = let stop : none ≡ some roles = h in cc

read_roles-AreRoles :
    (claims : Members) (path : String) (roles : List String)
    → read_roles claims path ≡ some roles
    → AreRoles roles
unfolding read_roles
read_roles-AreRoles claims path roles h = elim (Bool-cases (is_empty path)) [
  | inl none_set ↦
      subst AreRoles (some-injective [] roles (rw (none_set, read_roles) at h)) no_roles
  | inr set ↦ roles_of-AreRoles (lookup claims path) roles (rw (set, read_roles) at h)
]

-- A field of the principal: none where its path is empty, and otherwise the claim's text, of 1 to
-- 128 bytes.
pub IsField : Members → String → String → Type 0
IsField claims path s =
    ((path ≡ "") × (s ≡ ""))
    ⊎ ((s ≡ as_text (lookup claims path)) × (s ≢ "") × (length (utf8 s) ≤ 128))

read_field-IsField :
    (claims : Members) (path s : String) → read_field claims path ≡ some s → IsField claims path s
unfolding read_field IsField
read_field-IsField claims path s h = elim (Bool-cases (is_empty path)) [
  | inl unset ↦
      inl ((eq_iff path "").0 unset, sym (some-injective "" s (rw (unset, read_field) at h)))
  | inr set ↦
      elim (Bool-cases (
        is_empty (as_text (lookup claims path))
        || ltb 128 (length (utf8 (as_text (lookup claims path)))))) [
          | inl bad ↦ let stop : none ≡ some s = rw (set, bad, read_field) at h in cc
          | inr good ↦
              let same = some-injective _ s (rw (set, good, read_field) at h) in
              inr (
                subst (λ t. (t ≡ as_text (lookup claims path)) × (t ≢ "") × (length (utf8 t) ≤ 128))
                  same
                  (
                    refl,
                    (λ empty.
                        ground (arith, good, empty, eq_iff (as_text (lookup claims path)) "")),
                    ground (arith, good),
                  ))
        ]
]

-- The token behind a principal: go-oidc's claims of it, in force, with the principal's fields.
pub record IsVouched (verified : String → Option Members) (names : Claims) (skew now : ℤ)
    (bearer : String) (p : Principal) : Type 0 where
  pub claims : Members
  pub accepted : verified bearer ≡ some claims
  pub unexpired : expired now skew (member_of "exp" claims) ≡ false
  pub begun : early now skew (member_of "nbf" claims) ≡ false
  pub tenant : IsField claims names.tenant p.tenant_id
  pub actor : IsField claims names.actor p.actor_id
  pub project : IsField claims names.project p.project_id
  pub roles : AreRoles p.roles

principal_from-fields :
    (names : Claims) (claims : Members) (p : Principal)
    → principal_from names claims ≡ some p
    → IsField claims names.tenant p.tenant_id
      × IsField claims names.actor p.actor_id
      × IsField claims names.project p.project_id
      × AreRoles p.roles
unfolding principal_from
principal_from-fields names claims p h = elim (Option-cases (read_field claims names.tenant)) [
  | inl bad ↦ let stop : none ≡ some p = rw (bad, principal_from) at h in cc
  | inr (tenant, t) ↦ elim (Option-cases (read_field claims names.actor)) [
    | inl bad ↦ let stop : none ≡ some p = rw (t, bad, principal_from) at h in cc
    | inr (actor, a) ↦ elim (Option-cases (read_field claims names.project)) [
      | inl bad ↦ let stop : none ≡ some p = rw (t, a, bad, principal_from) at h in cc
      | inr (project, j) ↦ elim (Option-cases (read_roles claims names.roles)) [
        | inl bad ↦ let stop : none ≡ some p = rw (t, a, j, bad, principal_from) at h in cc
        | inr (roles, r) ↦
            subst
              (λ (q : Principal).
                IsField claims names.tenant q.tenant_id
                × IsField claims names.actor q.actor_id
                × IsField claims names.project q.project_id
                × AreRoles q.roles)
              (some-injective _ p (rw (t, a, j, r, principal_from) at h))
              (
                read_field-IsField claims names.tenant tenant t,
                read_field-IsField claims names.actor actor a,
                read_field-IsField claims names.project project j,
                read_roles-AreRoles claims names.roles roles r,
              )
      ]
    ]
  ]
]

-- A principal that the verifier answers stands behind a token that go-oidc accepts, with an exp that
-- has not passed and no nbf to come, both within the clock skew; its tenant, actor and project are
-- the claims' texts of 1 to 128 bytes, or none where no claim is configured, and its roles are at
-- most 32 role names, each once.
pub verify_sound :
    (verified : String → Option Members) (names : Claims) (skew now : ℤ) (bearer : String)
    (p : Principal)
    → verify verified names skew now bearer ≡ some p
    → IsVouched verified names skew now bearer p
unfolding verify
verify_sound verified names skew now bearer p h = elim (Option-cases (verified bearer)) [
  | inl unknown ↦ let stop : none ≡ some p = rw (unknown, verify) at h in cc
  | inr (claims, known) ↦
      elim (Bool-cases
        (expired now skew (member_of "exp" claims) || early now skew (member_of "nbf" claims))) [
          | inl out ↦ let stop : none ≡ some p = rw (known, out, verify) at h in cc
          | inr current ↦
              let (tenant, actor, project, roles) =
                principal_from-fields names claims p (rw (known, current, verify) at h) in
              record {
                claims = claims;
                accepted = known;
                unexpired = ground (arith, current);
                begun = ground (arith, current);
                tenant = tenant;
                actor = actor;
                project = project;
                roles = roles;
              }
        ]
]
