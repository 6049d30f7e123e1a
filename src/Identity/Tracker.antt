-- ===== src/Identity/Tracker.antt =====
-- The tracker of accepted connections (internal/transport/identity/credentials.go, connTracker), and
-- the steps of the server around it: handshakes, closes, and the reloads that retire roots. A root is
-- its fingerprint, a connection a number; `conns` is the Go map of sets.
use text.Mathlib.Text.{◌==◌ as str_eq}
use text.Mathlib.TextEquality.{eq_iff}
use anvilkit_agent_api.Base.{
  ℕ, ◌+◌, String, ◌≡◌, refl, sym, ap, ◌∙◌, ◌≢◌, ◌⊎◌, inl, inr, Bool, true, false, ◌||◌, Option,
  none, some, List, [], ◌∷◌, ◌++◌, length, ◌==◌, arith, if◌then◌else◌, Option-cases, length-append,
}
use anvilkit_agent_api.Base.Dict.{lookup, insert, erase, lookup-insert, lookup-erase}

abbrev pub Conns : Type 0
Conns = List (String × List ℕ)

unfoldable pub trusts : String → List String → Bool
trusts root [] = false
trusts root (r ∷ rs) = str_eq r root || trusts root rs

unfoldable pub has : ℕ → List ℕ → Bool
has c [] = false
has c (d ∷ ds) = d == c || has c ds

-- A set is written once at each member.
unfoldable pub with_conn : ℕ → List ℕ → List ℕ
unfolding has
with_conn c ds = if has c ds then ds else c ∷ ds

unfoldable pub without_conn : ℕ → List ℕ → List ℕ
without_conn c [] = []
without_conn c (d ∷ ds) = let kept = without_conn c ds in if d == c then kept else d ∷ kept

abbrev set_of : Option (List ℕ) → List ℕ
set_of none = []
set_of (some ds) = ds

unfoldable pub add : String → ℕ → Conns → Conns
unfolding with_conn
add root c conns = insert root (with_conn c (set_of (lookup root conns))) conns

-- What is left of the root's set is stored back, and an empty one is deleted.
abbrev store : String → List ℕ → Conns → Conns
store root [] conns = erase root conns
store root (d ∷ ds) conns = insert root (d ∷ ds) conns

abbrev remove_from : String → ℕ → Option (List ℕ) → Conns → Conns
remove_from root c none conns = conns
remove_from root c (some ds) conns = store root (without_conn c ds) conns

unfoldable pub remove : String → ℕ → Conns → Conns
remove root c conns = remove_from root c (lookup root conns) conns

-- The connections left, and the ones closed.
unfoldable pub close_retired : List String → Conns → Conns × List ℕ
close_retired roots [] = ([], [])
close_retired roots ((root, set) ∷ rest) =
    let (kept, closed) = close_retired roots rest in
    if trusts root roots then ((root, set) ∷ kept, closed) else (kept, set ++ closed)

-- How many connections are tracked.
unfoldable pub size : Conns → ℕ
size [] = 0
size ((_, set) ∷ rest) = length set + size rest

lookup-close_retired :
    (roots : List String) (conns : Conns) (root : String)
    → lookup root (close_retired roots conns).0
      ≡ (if trusts root roots then lookup root conns else none)
unfolding close_retired lookup
lookup-close_retired roots [] root = ground arith
lookup-close_retired roots ((r, set) ∷ rest) root =
    ground (arith, eq_iff r root, lookup-close_retired roots rest root)

close_retired-length :
    (roots : List String) (conns : Conns)
    → size conns ≡ size (close_retired roots conns).0 + length (close_retired roots conns).1
unfolding close_retired size
close_retired-length roots [] = refl
close_retired-length roots ((r, set) ∷ rest) =
    ground (arith, close_retired-length roots rest, length-append set (close_retired roots rest).1)

-- After a reload, the connections of a root that is still trusted are tracked as before, none of
-- another root is, and the connections closed are as many as those no longer tracked.
pub close_retired_lem :
    (roots : List String) (conns : Conns) (root : String)
    → (lookup root (close_retired roots conns).0
        ≡ (if trusts root roots then lookup root conns else none))
      × (size conns ≡ size (close_retired roots conns).0 + length (close_retired roots conns).1)
close_retired_lem roots conns root =
    (lookup-close_retired roots conns root, close_retired-length roots conns)

-- Every tracked root is one of `roots`.
unfoldable pub AllTrusted : List String → Conns → Type 0
AllTrusted roots conns = (root : String) → (lookup root conns ≡ none) ⊎ (trusts root roots ≡ true)

pub add-AllTrusted :
    (roots : List String) (conns : Conns) (root : String) (c : ℕ)
    → trusts root roots ≡ true
    → AllTrusted roots conns
    → AllTrusted roots (add root c conns)
unfolding add AllTrusted
add-AllTrusted roots conns root c trusted h other = ground (
  arith,
  trusted,
  h other,
  eq_iff root other,
  lookup-insert root other (with_conn c (set_of (lookup root conns))) conns,
)

store-lookup :
    (root other : String) (set : List ℕ) (conns : Conns)
    → lookup other conns ≡ none
    → root ≢ other
    → lookup other (store root set conns) ≡ none
store-lookup root other [] conns h apart =
    ground (arith, h, apart, eq_iff root other, lookup-erase root other conns)
store-lookup root other (d ∷ ds) conns h apart =
    ground (arith, h, apart, eq_iff root other, lookup-insert root other (d ∷ ds) conns)

pub remove-AllTrusted :
    (roots : List String) (conns : Conns) (root : String) (c : ℕ)
    → AllTrusted roots conns
    → AllTrusted roots (remove root c conns)
unfolding remove AllTrusted
remove-AllTrusted roots conns root c h other = elim (Option-cases (lookup root conns)) [
  | inl absent ↦ rw (absent, remove) (h other)
  | inr (set, found) ↦ elim (h other) [
    | inr trusted ↦ inr trusted
    | inl absent ↦ inl (
        rw (found, remove)
          (store-lookup root other (without_conn c set) conns absent (λ same.
            let none_left : some set ≡ none = sym found ∙ ap (λ s. lookup s conns) same ∙ absent in
            cc)))
  ]
]

pub close_retired-AllTrusted :
    (roots : List String) (conns : Conns) → AllTrusted roots (close_retired roots conns).0
unfolding AllTrusted
close_retired-AllTrusted roots conns root = ground (arith, lookup-close_retired roots conns root)
