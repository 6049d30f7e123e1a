-- ===== src/Identity/Spiffe.antt =====
-- The SPIFFE identity of a workload (internal/transport/identity/spiffe.go). Parsing the URI is
-- net/url's: `Uri` is what it yields, and a certificate is the list of its URI SANs. The two regular
-- expressions are written as functions over the characters.
pub mod Names
use Prim.Native.Char.{Char, code}
use Prim.Native.String.{String, [], ◌∷◌}
use Prim.Native.String
use mathlib.Core.List
use mathlib.Core.Path.{subst}
use text.Mathlib.Text.{◌==◌ as str_eq}
use text.Mathlib.TextEquality.{eq_iff}
use text.Mathlib.TextLemmas.{nil-append, cons-append}
use anvilkit_agent_api.Base.{
  ℕ, zero, suc, ◌≤◌, ◌≡◌, refl, sym, ap, ◌∙◌, ◌≢◌, ◌↔◌, ◌⊎◌, inl, inr, Bool, true, false, not, ◌&&◌,
  ◌||◌, Option, none, some, List, leb, ◌==◌, arith, if◌then◌else◌, Bool-cases,
}
use anvilkit_agent_api.Base.Text.{is_empty}

pub record Principal : Type 0 where
  pub trust_domain : String
  pub namespace : String
  pub service_account : String

-- url.URL; `port` is what its method Port gives.
pub record Uri : Type 0 where
  pub scheme : String
  pub opaque : String
  pub has_user : Bool
  pub host : String
  pub port : String
  pub path : String
  pub raw_query : String
  pub fragment : String

pub data SpiffeError : Type 0 where
  no_certificate not_one_uri no_uri not_a_workload no_trust_domain bad_path : SpiffeError

pub data Identified : Type 0 where
  failed : SpiffeError → Identified
  known : Principal → Identified

-- `strings.Split` at a one-byte separator.
pub push_front : Char → List String → List String
push_front c List.[] = List.◌∷◌ (c ∷ "") List.[]
push_front c (List.◌∷◌ part parts) = List.◌∷◌ (c ∷ part) parts

unfoldable pub split : ℕ → String → List String
unfolding push_front
split sep [] = List.◌∷◌ "" List.[]
split sep (c ∷ s) =
    let rest = split sep s in if code c == sep then List.◌∷◌ "" rest else push_front c rest

abbrev pub is_alnum : Char → Bool
is_alnum c = (leb b'a' (code c) && leb (code c) b'z') || (leb b'0' (code c) && leb (code c) b'9')

-- `([-a-z0-9]{0,n}[a-z0-9])$`
unfoldable pub label_rest : ℕ → String → Bool
label_rest n [] = false
label_rest zero (c ∷ s) = is_alnum c && is_empty s
label_rest (suc n) (c ∷ s) =
    let later = label_rest n s in
    (is_alnum c && is_empty s) || ((code c == b'-' || is_alnum c) && later)

-- `label`
unfoldable pub is_label : String → Bool
is_label [] = false
is_label (c ∷ s) = is_alnum c && (is_empty s || label_rest 61 s)

unfoldable pub all_labels : List String → Bool
all_labels List.[] = true
all_labels (List.◌∷◌ part parts) = is_label part && all_labels parts

-- ValidTrustDomain: the labels between the dots.
abbrev pub valid_trust_domain : String → Bool
valid_trust_domain s = all_labels (split b'.' s)

pub path_parts : String → List String → Identified
path_parts host
      (List.◌∷◌ root (List.◌∷◌ ns (List.◌∷◌ namespace (List.◌∷◌ sa (List.◌∷◌ account List.[]))))) =
    if not (is_empty root)
      || not (str_eq ns "ns")
      || not (str_eq sa "sa")
      || not (is_label namespace)
      || not (is_label account)
    then failed bad_path
    else known (record { trust_domain = host; namespace = namespace; service_account = account })
path_parts host _ = failed bad_path

unfoldable pub parse_spiffe : Option Uri → Identified
unfolding path_parts
parse_spiffe none = failed no_uri
parse_spiffe (some u) =
    if not (str_eq u.scheme "spiffe")
      || u.has_user
      || not (is_empty u.opaque)
      || not (is_empty u.raw_query)
      || not (is_empty u.fragment)
      || not (is_empty u.port)
    then failed not_a_workload
    else if not (valid_trust_domain u.host)
    then failed no_trust_domain
    else path_parts u.host (split b'/' u.path)

-- PeerPrincipal: the URI SANs of the leaf.
unfoldable pub peer_principal : Option (List Uri) → Identified
peer_principal none = failed no_certificate
peer_principal (some (List.◌∷◌ u List.[])) = parse_spiffe (some u)
peer_principal (some _) = failed not_one_uri

-- The path that Principal.String writes after the trust domain.
abbrev pub path_of : Principal → String
path_of p = String.◌++◌ "/ns/" (String.◌++◌ p.namespace (String.◌++◌ "/sa/" p.service_account))
