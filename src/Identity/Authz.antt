-- ===== src/Identity/Authz.antt =====
-- The authorization of a method (internal/transport/identity/authz.go): the policy, the checks of its
-- shape and against the registered methods, and the decision for a call. The gRPC server's service
-- info is the list of its methods; sorting only orders an error's text.
use mathlib.Core.Path.{subst}
use mathlib.Core.Option.{some-injective}
use text.Mathlib.Text.{◌==◌ as str_eq}
use text.Mathlib.TextEquality.{eq_iff}
use anvilkit_agent_api.Base.{
  String, ◌≡◌, refl, ◌≢◌, ◌↔◌, inl, inr, Bool, true, false, not, ◌&&◌, ◌||◌, Option, none, some,
  List, [], ◌∷◌, arith, if◌then◌else◌, All, Bool-cases, Option-cases, sym, ◌∙◌,
}
use anvilkit_agent_api.Base.Dict.{lookup}
use anvilkit_agent_api.Identity.Spiffe.{Principal, Identified, failed, known}

pub record Workload : Type 0 where
  pub namespace : String
  pub service_account : String

abbrev pub any_authenticated : Workload
any_authenticated = record { namespace = "*"; service_account = "*" }

abbrev pub Policy : Type 0
Policy = List (String × List Workload)

pub record Authorizer : Type 0 where
  pub trust_domain : String
  pub policy : Policy

abbrev pub is_any : Workload → Bool
is_any w = str_eq w.namespace "*" && str_eq w.service_account "*"

-- The loop of Allowed.
unfoldable pub any_matches : List Workload → Principal → Bool
any_matches [] p = false
any_matches (w ∷ rest) p =
    (is_any w || (str_eq w.namespace p.namespace && str_eq w.service_account p.service_account))
    || any_matches rest p

abbrev pub entry : Option (List Workload) → List Workload
entry none = []
entry (some ws) = ws

unfoldable pub allowed : Authorizer → String → Principal → Bool
allowed a method p =
    str_eq p.trust_domain a.trust_domain && any_matches (entry (lookup method a.policy)) p

-- What the connection's AuthInfo is: none, of another transport, or the peer's identity.
pub data AuthInfo : Type 0 where
  absent foreign : AuthInfo
  peer : Identified → AuthInfo

pub data Decision : Type 0 where
  unauthenticated permission_denied admitted : Decision

abbrev pub decide : Authorizer → String → Identified → Decision
decide a method (failed e) = unauthenticated
decide a method (known p) = if not (allowed a method p) then permission_denied else admitted

unfoldable pub authorize : Authorizer → String → AuthInfo → Decision
authorize a method absent = unauthenticated
authorize a method foreign = unauthenticated
authorize a method (peer i) = decide a method i

-- The interceptor of a unary call: the handler runs only where the call is admitted.
abbrev intercepted : {A : Type 0} → Decision → A → Option A
intercepted admitted response = some response
intercepted _ response = none

unfoldable pub unary : {A : Type 0} → Authorizer → String → AuthInfo → A → Option A
unary a method i response = intercepted (authorize a method i) response

-- Caller: the verified workload of a call.
unfoldable pub caller : AuthInfo → Option Principal
caller (peer (known p)) = some p
caller _ = none

-- Check: the registered methods without an entry, and the entries without a method.
unfoldable pub missing : Policy → List String → List String
missing policy [] = []
missing policy (m ∷ rest) =
    let later = missing policy rest in elim (lookup m policy) [ none ↦ m ∷ later | some _ ↦ later ]

unfoldable pub registered : String → List String → Bool
registered m [] = false
registered m (n ∷ rest) = str_eq n m || registered m rest

unfoldable pub stale : Policy → List String → List String
stale [] methods = []
stale ((m, _) ∷ rest) methods =
    let later = stale rest methods in if registered m methods then later else m ∷ later

abbrev none_left : List String → Bool
none_left [] = true
none_left (_ ∷ _) = false

unfoldable pub check : Authorizer → List String → Bool
check a methods = none_left (missing a.policy methods) && none_left (stale a.policy methods)

-- A workload that the policy's entry names, or the entry of every workload.
pub data Matches (p : Principal) : List Workload → Type 0 where
  any :
      {w : Workload} {rest : List Workload}
      → w.namespace ≡ "*"
      → w.service_account ≡ "*"
      → Matches p (w ∷ rest)
  named :
      {w : Workload} {rest : List Workload}
      → w.namespace ≡ p.namespace
      → w.service_account ≡ p.service_account
      → Matches p (w ∷ rest)
  later : {w : Workload} {rest : List Workload} → Matches p rest → Matches p (w ∷ rest)

pub Matches-any_matches :
    (p : Principal) (ws : List Workload) → Matches p ws → any_matches ws p ≡ true
unfolding any_matches
Matches-any_matches p [] m = elim m [ ]
Matches-any_matches p (w ∷ rest) (any n s) =
    ground (arith, n, s, eq_iff w.namespace "*", eq_iff w.service_account "*")
Matches-any_matches p (w ∷ rest) (named n s) =
    ground (arith, n, s, eq_iff w.namespace p.namespace, eq_iff w.service_account p.service_account)
Matches-any_matches p (w ∷ rest) (later m) = ground (arith, Matches-any_matches p rest m)

any_matches-Matches : (p : Principal) (ws : List Workload) → any_matches ws p ≡ true → Matches p ws
unfolding any_matches
any_matches-Matches p [] h = let stop : false ≡ true = h in cc
any_matches-Matches p (w ∷ rest) h = elim (Bool-cases (any_matches rest p)) [
  | inl more ↦ later (any_matches-Matches p rest more)
  | inr last ↦ elim (Bool-cases (is_any w)) [
    | inl star ↦
        any (ground (arith, star, eq_iff w.namespace "*"))
          (ground (arith, star, eq_iff w.service_account "*"))
    | inr own ↦
        named (ground (arith, h, last, own, eq_iff w.namespace p.namespace))
          (ground (arith, h, last, own, eq_iff w.service_account p.service_account))
  ]
]

pub record MayCall (a : Authorizer) (method : String) (i : AuthInfo) : Type 0 where
  pub principal : Principal
  pub is_caller : caller i ≡ some principal
  pub same_domain : principal.trust_domain ≡ a.trust_domain
  pub in_entry : Matches principal (entry (lookup method a.policy))

-- The handler of a call runs exactly where the peer has an identity in the authorizer's trust
-- domain and the policy's entry for the method names that workload, or every workload; a method
-- without an entry admits nobody.
pub unary_iff :
    {A : Type 0} (a : Authorizer) (method : String) (i : AuthInfo) (response : A)
    → (unary a method i response ≡ some response) ↔ MayCall a method i
unfolding unary authorize allowed caller
unary_iff a method absent response = (
  λ h. let stop : none ≡ some response = h in cc,
  λ v. let stop : none ≡ some v.principal = v.is_caller in cc,
)
unary_iff a method foreign response = (
  λ h. let stop : none ≡ some response = h in cc,
  λ v. let stop : none ≡ some v.principal = v.is_caller in cc,
)
unary_iff a method (peer (failed e)) response = (
  λ h. let stop : none ≡ some response = h in cc,
  λ v. let stop : none ≡ some v.principal = v.is_caller in cc,
)
unary_iff a method (peer (known q)) response = (
  λ h. elim (Bool-cases (allowed a method q)) [
    | inr denied ↦ let stop : none ≡ some response = rw (denied, unary, authorize) at h in cc
    | inl may ↦ record {
      principal = q;
      is_caller = refl;
      same_domain = ground (arith, may, eq_iff q.trust_domain a.trust_domain);
      in_entry = any_matches-Matches q (entry (lookup method a.policy)) (ground (arith, may));
    }
  ],
  λ v.
      let same = some-injective q v.principal v.is_caller in
      let may : allowed a method q ≡ true =
        subst (λ p. allowed a method p ≡ true) (sym same)
          (rw
            (
              (eq_iff v.principal.trust_domain a.trust_domain).1 v.same_domain,
              Matches-any_matches v.principal _ v.in_entry,
              allowed,
            )
            refl) in
      rw (may, unary, authorize) refl,
)

missing_iff :
    (policy : Policy) (methods : List String)
    → (missing policy methods ≡ []) ↔ All (λ m. lookup m policy ≢ none) methods
unfolding missing
missing_iff policy [] = (λ h. tt, λ h. refl)
missing_iff policy (m ∷ rest) = elim (Option-cases (lookup m policy)) [
  | inl unset ↦ (
    λ h. let stop : m ∷ missing policy rest ≡ [] = rw (unset, missing) at h in cc,
    λ v. absurd (v.0 unset),
  )
  | inr (ws, found) ↦ (
    λ h. (
      λ unset. let stop : some ws ≡ none = sym found ∙ unset in cc,
      (missing_iff policy rest).0 (rw (found, missing) at h),
    ),
    λ v. rw (found, missing) ((missing_iff policy rest).1 v.1),
  )
]

stale_iff :
    (policy : Policy) (methods : List String)
    → (stale policy methods ≡ []) ↔ All (λ e. registered e.0 methods ≡ true) policy
unfolding stale
stale_iff [] methods = (λ h. tt, λ h. refl)
stale_iff ((m, ws) ∷ rest) methods = (
  λ h. ground (arith, h, (stale_iff rest methods).0),
  λ v. ground (arith, v.0, (stale_iff rest methods).1 v.1),
)

none_left_iff : (l : List String) → (none_left l ≡ true) ↔ (l ≡ [])
none_left_iff [] = (λ h. refl, λ h. refl)
none_left_iff (m ∷ rest) = (λ h. let stop : false ≡ true = h in cc, λ h. cc)

-- The check at start-up passes exactly where every registered method has a policy entry and every
-- entry names a registered method.
pub check_iff :
    (a : Authorizer) (methods : List String)
    → (check a methods ≡ true) ↔ (
        All (λ m. lookup m a.policy ≢ none) methods
        × All (λ e. registered e.0 methods ≡ true) a.policy)
unfolding check
check_iff a methods = (
  λ h. (
    (missing_iff a.policy methods).0 ((none_left_iff _).0 (ground (arith, h))),
    (stale_iff a.policy methods).0 ((none_left_iff _).0 (ground (arith, h))),
  ),
  λ v.
      rw
        (
          (none_left_iff _).1 ((missing_iff a.policy methods).1 v.0),
          (none_left_iff _).1 ((stale_iff a.policy methods).1 v.1),
          check,
        )
        refl,
)
