-- ===== src/Identity/Policy.antt =====
-- NewAuthorizer (internal/transport/identity/authz.go): the shape of a policy, and whom an authorizer
-- that it makes lets in. Only the first error is reported, so an error is none here.
use Prim.Native.Char.{code}
use Prim.Native.String.{String}
use text.Mathlib.Text.{◌==◌ as str_eq}
use text.Mathlib.TextEquality.{eq_iff}
use anvilkit_agent_api.Base.{
  ℕ, ◌+◌, ◌≡◌, refl, inl, inr, Bool, true, false, not, ◌&&◌, ◌||◌, Option, none, some, List, [],
  ◌∷◌, ◌==◌, arith, if◌then◌else◌, Bool-cases, Option-cases, ◌≢◌, ◌↔◌,
}
use anvilkit_agent_api.Base.Dict.{lookup}
use anvilkit_agent_api.Config.Environment.{has_prefix}
use anvilkit_agent_api.Identity.Spiffe.{
  Principal, Uri, Identified, known, failed, is_label, label_rest, path_of, peer_principal,
  valid_trust_domain,
}
use anvilkit_agent_api.Identity.Spiffe.Names.{Names, peer_principal_of_Names}
use anvilkit_agent_api.Identity.Authz.{
  Workload, Policy, Authorizer, is_any, any_matches, allowed, peer, admitted, authorize, Matches,
  any, named, Matches-any_matches, decide, permission_denied,
}

-- `strings.Count(s, "/")`
unfoldable pub slashes : String → ℕ
slashes String.[] = 0
slashes (String.◌∷◌ c s) = if code c == b'/' then slashes s + 1 else slashes s

abbrev pub is_workload : Workload → Bool
is_workload w = is_any w || (is_label w.namespace && is_label w.service_account)

unfoldable pub all_workloads : List Workload → Bool
all_workloads [] = true
all_workloads (w ∷ ws) = is_workload w && all_workloads ws

abbrev pub is_nobody : List Workload → Bool
is_nobody [] = true
is_nobody (w ∷ ws) = false

unfoldable pub is_entry : String → List Workload → Bool
unfolding slashes all_workloads
is_entry method ws =
    (has_prefix "/" method && slashes method == 2) && (not (is_nobody ws) && all_workloads ws)

unfoldable pub all_entries : Policy → Bool
unfolding is_entry
all_entries [] = true
all_entries ((method, ws) ∷ rest) = is_entry method ws && all_entries rest

unfoldable pub new_authorizer : String → Policy → Option Authorizer
unfolding all_entries
new_authorizer trust_domain policy =
    if not (valid_trust_domain trust_domain)
    then none
    else if all_entries policy
    then some (record { trust_domain = trust_domain; policy = policy })
    else none

entry_of_policy :
    (policy : Policy) (method : String) (ws : List Workload)
    → all_entries policy ≡ true
    → lookup method policy ≡ some ws
    → is_entry method ws ≡ true
unfolding all_entries lookup
entry_of_policy [] method ws ok h = cc
entry_of_policy ((name, v) ∷ rest) method ws ok h = elim (Bool-cases (str_eq name method)) [
  | inl here ↦
      let found : some v ≡ some ws = rw (here, lookup) at h in
      let same : v ≡ ws = cc in
      let e : name ≡ method = (eq_iff name method).0 here in
      let own : is_entry name v ≡ true = ground (arith, ok) in rw (e, same) at own
  | inr later ↦ entry_of_policy rest method ws (ground (arith, ok)) (rw (later, lookup) at h)
]

-- The workload that an entry's first member stands for, in a trust domain.
abbrev standing_for : String → Workload → Principal
standing_for domain w =
    if is_any w
    then record { trust_domain = domain; namespace = "a"; service_account = "a" }
    else record {
      trust_domain = domain;
      namespace = w.namespace;
      service_account = w.service_account;
    }

abbrev uri_of : Principal → Uri
uri_of p = record {
  scheme = "spiffe";
  opaque = "";
  has_user = false;
  host = p.trust_domain;
  port = "";
  path = path_of p;
  raw_query = "";
  fragment = "";
}

standing_for-Names :
    (domain : String) (w : Workload)
    → valid_trust_domain domain ≡ true
    → is_workload w ≡ true
    → Names (uri_of (standing_for domain w)) (standing_for domain w)
unfolding is_label label_rest
standing_for-Names domain w valid ok = elim (Bool-cases (is_any w)) [
  | inl any_one ↦ rw any_one (record {
    scheme = refl;
    no_user = refl;
    opaque = refl;
    raw_query = refl;
    fragment = refl;
    port = refl;
    host = refl;
    trust_domain = valid;
    path = refl;
    namespace = refl;
    service_account = refl;
  })
  | inr own ↦
      let labels : (is_label w.namespace && is_label w.service_account) ≡ true = rw own at ok in
      rw own (record {
        scheme = refl;
        no_user = refl;
        opaque = refl;
        raw_query = refl;
        fragment = refl;
        port = refl;
        host = refl;
        trust_domain = valid;
        path = refl;
        namespace = ground (arith, labels);
        service_account = ground (arith, labels);
      })
]

standing_for-Matches :
    (domain : String) (w : Workload) (ws : List Workload) → Matches (standing_for domain w) (w ∷ ws)
standing_for-Matches domain w ws = elim (Bool-cases (is_any w)) [
  | inl any_one ↦
      any (ground (arith, any_one, eq_iff w.namespace "*"))
        (ground (arith, any_one, eq_iff w.service_account "*"))
  | inr own ↦ rw own (named refl refl)
]

new_authorizer-some :
    (domain : String) (policy : Policy) (a : Authorizer)
    → new_authorizer domain policy ≡ some a
    → (valid_trust_domain domain ≡ true)
      × (all_entries policy ≡ true)
      × (a ≡ record { trust_domain = domain; policy = policy })
unfolding new_authorizer
new_authorizer-some domain policy a h = elim (Bool-cases (valid_trust_domain domain)) [
  | inr invalid ↦
      let stop : ◌≡◌ {A = Option Authorizer} none (some a) = rw (invalid, new_authorizer) at h in cc
  | inl valid ↦ elim (Bool-cases (all_entries policy)) [
    | inr malformed ↦
        let stop : ◌≡◌ {A = Option Authorizer} none (some a) =
          rw (valid, malformed, new_authorizer) at h in
        cc
    | inl ok ↦
        let made : some (record { trust_domain = domain; policy = policy }) ≡ some a =
          rw (valid, ok, new_authorizer) at h in
        (valid, ok, cc)
  ]
]

-- What a method without an entry comes to.
unlisted :
    (domain method : String) (policy : Policy) (i : Identified)
    → lookup method policy ≡ none
    → decide (record { trust_domain = domain; policy = policy }) method i ≢ admitted
unfolding allowed any_matches
unlisted domain method policy (failed e) h admits = cc
unlisted domain method policy (known p) h admits =
    let refused : allowed (record { trust_domain = domain; policy = policy }) method p ≡ false =
      rw (h, allowed) (ground arith) in
    let stop : permission_denied ≡ admitted = rw refused at admits in cc

first_admitted :
    (domain method : String) (policy : Policy) (ws : List Workload)
    → valid_trust_domain domain ≡ true
    → lookup method policy ≡ some ws
    → is_entry method ws ≡ true
    → (u : Uri) × (u.host ≡ domain)
      × (decide
            (record { trust_domain = domain; policy = policy })
            method
            (peer_principal (some (u ∷ [])))
          ≡ admitted)
unfolding is_entry all_workloads allowed
first_admitted domain method policy [] valid h ok = ground (arith, ok)
first_admitted domain method policy (w ∷ ws) valid h ok =
    let p = standing_for domain w in
    let id =
      peer_principal_of_Names (uri_of p) p
        (standing_for-Names domain w valid (ground (arith, ok))) in
    let host : p.trust_domain ≡ domain = elim (Bool-cases (is_any w)) [
      | inl e ↦ rw e refl
      | inr e ↦ rw e refl
    ] in
    let may : allowed (record { trust_domain = domain; policy = policy }) method p ≡ true =
      rw (h, allowed)
        (rw
          (
            (eq_iff p.trust_domain domain).1 host,
            Matches-any_matches p (w ∷ ws) (standing_for-Matches domain w ws),
          )
          refl) in
    (uri_of p, host, rw (id, may) refl)

-- With an authorizer that NewAuthorizer makes, no entry of the policy is dead and no other method is
-- open: a method has an entry exactly where some URI of the authorizer's trust domain, as the only URI
-- SAN of a peer's certificate, is authorized to call it.
pub new_authorizer_iff :
    (domain : String) (policy : Policy) (a : Authorizer) (method : String)
    → new_authorizer domain policy ≡ some a
    → ((ws : List Workload) × (lookup method policy ≡ some ws)) ↔ (
        (u : Uri) × (u.host ≡ domain)
        × (authorize a method (peer (peer_principal (some (u ∷ [])))) ≡ admitted))
unfolding authorize
new_authorizer_iff domain policy a method h =
    let (valid, ok, same) = new_authorizer-some domain policy a h in
    (
      λ found.
          let (ws, listed) = found in
          let (u, host, may) =
            first_admitted domain method policy ws valid listed
              (entry_of_policy policy method ws ok listed) in
          (u, host, rw same may),
      λ admits.
          let (u, host, may) = admits in
          elim (Option-cases (lookup method policy)) [
            | inl absent ↦ absurd (
                unlisted domain method policy (peer_principal (some (u ∷ []))) absent
                  (rw same at may))
            | inr found ↦ found
          ],
    )
