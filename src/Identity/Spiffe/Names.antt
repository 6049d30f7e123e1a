-- ===== src/Identity/Spiffe/Names.antt =====
-- The identities that a workload's URI names.
use Prim.Native.Char.{Char, code}
use Prim.Native.String.{String, [], ◌∷◌}
use Prim.Native.String
use mathlib.Core.Path.{subst}
use text.Mathlib.TextEquality.{eq_iff}
use text.Mathlib.TextLemmas.{nil-append, cons-append, append_assoc}
use anvilkit_agent_api.Base.{
  ℕ, zero, suc, ◌≡◌, refl, sym, ap, ◌∙◌, ◌≢◌, inl, inr, true, false, some, List, arith, Bool-cases,
}
use anvilkit_agent_api.Base.Text.{is_empty}
use anvilkit_agent_api.Identity.Spiffe.{
  Principal, Uri, known, split, push_front, is_alnum, label_rest, is_label, valid_trust_domain,
  path_parts, path_of, parse_spiffe, peer_principal,
}

pub NoSep : ℕ → String → Type 0
NoSep sep [] = Unit {0}
NoSep sep (c ∷ s) = (code c ≢ sep) × NoSep sep s

-- A part without the separator comes first, up to the separator after it.
split_part :
    (sep : ℕ) (part s : String) (c : Char)
    → NoSep sep part
    → code c ≡ sep
    → split sep (String.◌++◌ part (c ∷ s)) ≡ List.◌∷◌ part (split sep s)
unfolding split NoSep push_front
split_part sep [] s c h e = rw nil-append (ground (arith, e))
split_part sep (d ∷ part) s c (p, h) e =
    rw cons-append (ground (arith, p, split_part sep part s c h e))

split_last : (sep : ℕ) (part : String) → NoSep sep part → split sep part ≡ List.◌∷◌ part List.[]
unfolding split NoSep push_front
split_last sep [] h = refl
split_last sep (d ∷ part) (p, h) = ground (arith, p, split_last sep part h)

empty-NoSep : (sep : ℕ) (s : String) → is_empty s ≡ true → NoSep sep s
unfolding NoSep
empty-NoSep sep s h = subst (NoSep sep) (sym ((eq_iff s "").0 h)) tt

-- The characters of a label are none of the separators.
alnum_apart : (c : Char) → is_alnum c ≡ true → (code c ≢ b'/') × (code c ≢ b'.')
alnum_apart c h = (λ e. ground (arith, h, e), λ e. ground (arith, h, e))

label_rest-NoSep : (n : ℕ) (s : String) → label_rest n s ≡ true → NoSep b'/' s × NoSep b'.' s
unfolding label_rest NoSep
label_rest-NoSep n [] h = (tt, tt)
label_rest-NoSep zero (c ∷ s) h =
    let empty : is_empty s ≡ true = ground (arith, h) in
    let apart = alnum_apart c (ground (arith, h)) in
    ((apart.0, empty-NoSep _ s empty), (apart.1, empty-NoSep _ s empty))
label_rest-NoSep (suc n) (c ∷ s) h = elim (Bool-cases (label_rest n s)) [
  | inl more ↦
      let rest = label_rest-NoSep n s more in
      ((λ e. ground (arith, h, e), rest.0), (λ e. ground (arith, h, e), rest.1))
  | inr last ↦
      let empty : is_empty s ≡ true = ground (arith, h, last) in
      let apart = alnum_apart c (ground (arith, h, last)) in
      ((apart.0, empty-NoSep _ s empty), (apart.1, empty-NoSep _ s empty))
]

pub is_label-NoSep : (s : String) → is_label s ≡ true → NoSep b'/' s × NoSep b'.' s
unfolding is_label NoSep
is_label-NoSep [] h = (tt, tt)
is_label-NoSep (c ∷ s) h = elim (Bool-cases (is_empty s)) [
  | inl empty ↦
      let apart = alnum_apart c (ground (arith, h)) in
      ((apart.0, empty-NoSep _ s empty), (apart.1, empty-NoSep _ s empty))
  | inr more ↦
      let apart = alnum_apart c (ground (arith, h)) in
      let rest = label_rest-NoSep 61 s (ground (arith, h, more)) in
      ((apart.0, rest.0), (apart.1, rest.1))
]

abbrev slash : Char
slash = "/"

ns_front : (s : String) → String.◌++◌ "/ns/" s ≡ slash ∷ String.◌++◌ "ns" (slash ∷ s)
ns_front s =
    cons-append slash "ns/" s
    ∙ ap (λ t. slash ∷ t)
        (append_assoc "ns" "/" s
          ∙ ap (λ t. String.◌++◌ "ns" t)
              (cons-append slash "" s ∙ ap (λ t. slash ∷ t) (nil-append s)))

sa_front : (s : String) → String.◌++◌ "/sa/" s ≡ slash ∷ String.◌++◌ "sa" (slash ∷ s)
sa_front s =
    cons-append slash "sa/" s
    ∙ ap (λ t. slash ∷ t)
        (append_assoc "sa" "/" s
          ∙ ap (λ t. String.◌++◌ "sa" t)
              (cons-append slash "" s ∙ ap (λ t. slash ∷ t) (nil-append s)))

plain_ns : NoSep b'/' "ns"
unfolding NoSep
plain_ns = (λ e. ground (arith, e), (λ e. ground (arith, e), tt))

plain_sa : NoSep b'/' "sa"
unfolding NoSep
plain_sa = (λ e. ground (arith, e), (λ e. ground (arith, e), tt))

split_front : (s : String) → split b'/' (slash ∷ s) ≡ List.◌∷◌ "" (split b'/' s)
unfolding split
split_front s = refl

abbrev and_parts : String → List String → List String
and_parts part parts = List.◌∷◌ part parts

split-path_of :
    (p : Principal)
    → is_label p.namespace ≡ true
    → is_label p.service_account ≡ true
    → split b'/' (path_of p)
      ≡ List.◌∷◌ "" (
          List.◌∷◌ "ns" (List.◌∷◌ p.namespace (List.◌∷◌ "sa" (List.◌∷◌ p.service_account List.[]))))
split-path_of p ns sa =
    ap (split b'/') (ns_front _)
    ∙ split_front _
    ∙ ap (and_parts "") (
        split_part b'/' "ns" _ slash plain_ns refl
        ∙ ap (and_parts "ns") (
            ap (λ t. split b'/' (String.◌++◌ p.namespace t)) (sa_front p.service_account)
            ∙ split_part b'/' p.namespace _ slash (is_label-NoSep p.namespace ns).0 refl
            ∙ ap (and_parts p.namespace) (
                split_part b'/' "sa" _ slash plain_sa refl
                ∙ ap (and_parts "sa")
                    (split_last b'/' p.service_account (is_label-NoSep p.service_account sa).0))))

-- A URI that names the workload: the fields that must be empty, and the path of its two labels.
pub record Names (u : Uri) (p : Principal) : Type 0 where
  pub scheme : u.scheme ≡ "spiffe"
  pub no_user : u.has_user ≡ false
  pub opaque : u.opaque ≡ ""
  pub raw_query : u.raw_query ≡ ""
  pub fragment : u.fragment ≡ ""
  pub port : u.port ≡ ""
  pub host : u.host ≡ p.trust_domain
  pub trust_domain : valid_trust_domain p.trust_domain ≡ true
  pub path : u.path ≡ path_of p
  pub namespace : is_label p.namespace ≡ true
  pub service_account : is_label p.service_account ≡ true

-- A certificate whose one URI SAN is a spiffe URI of a valid trust domain and two valid labels, with
-- nothing else in it, identifies exactly that workload.
pub peer_principal_of_Names :
    (u : Uri) (p : Principal) → Names u p → peer_principal (some (List.◌∷◌ u List.[])) ≡ known p
unfolding peer_principal parse_spiffe path_parts
peer_principal_of_Names u p v =
    rw
      (
        v.scheme,
        v.no_user,
        v.opaque,
        v.raw_query,
        v.fragment,
        v.port,
        v.host,
        v.trust_domain,
        v.path,
        split-path_of p v.namespace v.service_account,
        path_parts,
        v.namespace,
        v.service_account,
      )
      (ap (λ (h : String). known (record p { trust_domain = h })) v.host)
