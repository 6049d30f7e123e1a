-- ===== src/Body/Tokens.antt =====
-- A document as its tokens, and what decodeValue reads of them: the two directions.
use text.Mathlib.Text.{◌==◌ as str_eq}
use text.Mathlib.TextEquality.{eq_iff}
use mathlib.Core.List.{append_assoc}
use anvilkit_agent_api.Base.{
  ℕ, zero, suc, ◌*◌, ◌≤◌, String, ◌≡◌, refl, sym, ap, ◌∙◌, false, ◌||◌, List, [], ◌∷◌, ◌++◌, length,
  length-append, arith,
}
use anvilkit_agent_api.Body.{
  string, Token, open_object, close_object, open_array, close_array, scalar, Value, plain, array,
  object, Items, no_items, item, Members, no_members, member, DecodeError, done, and_then, Decoded,
  failed, exhausted, has, set, add_item, decode_value, decode_members, decode_items,
}

unfoldable mutual
  -- The tokens of a document.
  pub tokens_of : Value → List Token
  tokens_of (plain s) = scalar s ∷ []
  tokens_of (array items) = open_array ∷ tokens_of_items items
  tokens_of (object fields) = open_object ∷ tokens_of_members fields

  pub tokens_of_items : Items → List Token
  tokens_of_items no_items = close_array ∷ []
  tokens_of_items (item value rest) = tokens_of value ++ tokens_of_items rest

  pub tokens_of_members : Members → List Token
  tokens_of_members no_members = close_object ∷ []
  tokens_of_members (member key value rest) =
      scalar (string key) ∷ (tokens_of value ++ tokens_of_members rest)

-- No object of the document names a member twice.
unfoldable mutual
  pub IsDistinct : Value → Type 0
  IsDistinct (plain s) = Unit
  IsDistinct (array items) = ItemsDistinct items
  IsDistinct (object fields) = MembersDistinct fields

  pub ItemsDistinct : Items → Type 0
  ItemsDistinct no_items = Unit
  ItemsDistinct (item value rest) = IsDistinct value × ItemsDistinct rest

  pub MembersDistinct : Members → Type 0
  MembersDistinct no_members = Unit
  MembersDistinct (member key value rest) =
      (has key rest ≡ false) × IsDistinct value × MembersDistinct rest

-- The members are new to the object.
unfoldable pub IsNew : Members → Members → Type 0
IsNew obj no_members = Unit
IsNew obj (member key value rest) = (has key obj ≡ false) × IsNew obj rest

unfoldable pub join_members : Members → Members → Members
join_members no_members fs = fs
join_members (member key value rest) fs = member key value (join_members rest fs)

unfoldable pub join_items : Items → Items → Items
join_items no_items xs = xs
join_items (item value rest) xs = item value (join_items rest xs)

pub join-set :
    (obj fs : Members) (key : String) (value : Value)
    → join_members (set obj key value) fs ≡ join_members obj (member key value fs)
unfolding set join_members
join-set no_members fs key value = refl
join-set (member name old rest) fs key value = rw (join-set rest fs key value)

pub join-add_item :
    (arr xs : Items) (value : Value)
    → join_items (add_item arr value) xs ≡ join_items arr (item value xs)
unfolding add_item join_items
join-add_item no_items xs value = refl
join-add_item (item first rest) xs value = rw (join-add_item rest xs value)

pub join-no_members : (obj : Members) → join_members obj no_members ≡ obj
unfolding join_members
join-no_members no_members = refl
join-no_members (member name old rest) = rw (join-no_members rest)

pub join-no_items : (arr : Items) → join_items arr no_items ≡ arr
unfolding join_items
join-no_items no_items = refl
join-no_items (item first rest) = rw (join-no_items rest)

has-set :
    (obj : Members) (key name : String) (value : Value)
    → has name (set obj key value) ≡ (has name obj || str_eq name key)
unfolding has set
has-set no_members key name value = ground arith
has-set (member other old rest) key name value = ground (arith, has-set rest key name value)

pub IsNew-set :
    (obj fs : Members) (key : String) (value : Value)
    → IsNew obj fs
    → has key fs ≡ false
    → IsNew (set obj key value) fs
unfolding IsNew has
IsNew-set obj no_members key value h k = tt
IsNew-set obj (member name old rest) key value (a, h) k = (
  rw (has-set obj key name value, a) (ground (arith, k, eq_iff name key, eq_iff key name)),
  IsNew-set obj rest key value h (ground (arith, k)),
)

pub IsNew-unset :
    (obj fs : Members) (key : String) (value : Value)
    → IsNew (set obj key value) fs
    → IsNew obj fs × (has key fs ≡ false)
unfolding IsNew has
IsNew-unset obj no_members key value h = (tt, refl)
IsNew-unset obj (member name old rest) key value (a, h) =
    let (i, j) = IsNew-unset obj rest key value h in
    let b : (has name obj || str_eq name key) ≡ false = sym (has-set obj key name value) ∙ a in
    ((ground (arith, b), i), ground (arith, b, j, eq_iff name key, eq_iff key name))

IsNew-nothing : (fs : Members) → IsNew no_members fs
unfolding IsNew has
IsNew-nothing no_members = tt
IsNew-nothing (member key value rest) = (refl, IsNew-nothing rest)

pub tokens_of-pos : (v : Value) → 1 ≤ length (tokens_of v)
unfolding tokens_of
tokens_of-pos (plain s) = omega arith
tokens_of-pos (array items) = omega arith
tokens_of-pos (object fields) = omega arith

tokens_of_items-pos : (xs : Items) → 1 ≤ length (tokens_of_items xs)
unfolding tokens_of
tokens_of_items-pos no_items = omega arith
tokens_of_items-pos (item v xs) =
    omega (arith, length-append (tokens_of v) (tokens_of_items xs), tokens_of_items-pos xs)

tokens_of_members-pos : (fs : Members) → 1 ≤ length (tokens_of_members fs)
unfolding tokens_of
tokens_of_members-pos no_members = omega arith
tokens_of_members-pos (member key v fs) = omega arith

module _ (failure : List Token → DecodeError) where
  abbrev next_items : ℕ → Items → Decoded Value → Decoded Items
  next_items n arr r = and_then r λ value left. decode_items failure n (add_item arr value) left

  decode_items-value :
      (n : ℕ) (arr : Items) (ts left : List Token) (v : Value)
      → decode_value failure n ts ≡ done v left
      → decode_items failure (suc n) arr ts ≡ decode_items failure n (add_item arr v) left
  unfolding decode_value
  decode_items-value zero arr ts left v h = let stop : exhausted ≡ done v left = h in cc
  decode_items-value (suc n) arr (close_array ∷ ts) left v h =
      let stop : failed (failure (close_array ∷ ts)) ≡ done v left = h in cc
  decode_items-value (suc n) arr [] left v h = ap (next_items (suc n) arr) h
  decode_items-value (suc n) arr (close_object ∷ ts) left v h = ap (next_items (suc n) arr) h
  decode_items-value (suc n) arr (open_object ∷ ts) left v h = ap (next_items (suc n) arr) h
  decode_items-value (suc n) arr (open_array ∷ ts) left v h = ap (next_items (suc n) arr) h
  decode_items-value (suc n) arr (scalar s ∷ ts) left v h = ap (next_items (suc n) arr) h

  decode_members-member :
      (n : ℕ) (obj : Members) (key : String) (ts left : List Token) (v : Value)
      → has key obj ≡ false
      → decode_value failure n ts ≡ done v left
      → decode_members failure (suc n) obj (scalar (string key) ∷ ts)
        ≡ decode_members failure n (set obj key v) left
  unfolding decode_value
  decode_members-member n obj key ts left v unseen h = rw (unseen, h, decode_members) refl

  mutual
    unfolding decode_value tokens_of IsDistinct IsNew join_members join_items

    pub decode_value-tokens_of :
        (v : Value) (n : ℕ) (rest : List Token)
        → IsDistinct v
        → suc (2 * length (tokens_of v)) ≤ n
        → decode_value failure n (tokens_of v ++ rest) ≡ done v rest
    decode_value-tokens_of v zero rest d h = absurd (omega arith)
    decode_value-tokens_of (plain s) (suc n) rest d h = refl
    decode_value-tokens_of (array items) (suc n) rest d h =
        rw (decode_items-tokens_of items no_items n rest d (omega arith))
    decode_value-tokens_of (object fields) (suc n) rest d h =
        rw
          (decode_members-tokens_of fields no_members n rest d (IsNew-nothing fields) (omega arith))

    decode_items-tokens_of :
        (xs arr : Items) (n : ℕ) (rest : List Token)
        → ItemsDistinct xs
        → 2 * length (tokens_of_items xs) ≤ n
        → decode_items failure n arr (tokens_of_items xs ++ rest) ≡ done (join_items arr xs) rest
    decode_items-tokens_of xs arr zero rest d h = absurd (omega (arith, tokens_of_items-pos xs))
    decode_items-tokens_of no_items arr (suc n) rest d h = rw (join-no_items arr)
    decode_items-tokens_of (item v xs) arr (suc n) rest (d, ds) h =
        let both = length-append (tokens_of v) (tokens_of_items xs) in
        rw (append_assoc (tokens_of v) (tokens_of_items xs) rest) (
          decode_items-value n arr _ _ v (
            decode_value-tokens_of v n (tokens_of_items xs ++ rest) d
              (omega (arith, both, tokens_of_items-pos xs)))
          ∙ decode_items-tokens_of xs (add_item arr v) n rest ds
              (omega (arith, both, tokens_of-pos v))
          ∙ ap (λ a. done a rest) (join-add_item arr xs v))

    decode_members-tokens_of :
        (fs obj : Members) (n : ℕ) (rest : List Token)
        → MembersDistinct fs
        → IsNew obj fs
        → 2 * length (tokens_of_members fs) ≤ n
        → decode_members failure n obj (tokens_of_members fs ++ rest)
          ≡ done (join_members obj fs) rest
    decode_members-tokens_of fs obj zero rest d new h =
        absurd (omega (arith, tokens_of_members-pos fs))
    decode_members-tokens_of no_members obj (suc n) rest d new h = rw (join-no_members obj)
    decode_members-tokens_of (member key v fs) obj (suc n) rest (fresh, d, ds) (unseen, new) h =
        let both = length-append (tokens_of v) (tokens_of_members fs) in
        rw (append_assoc (tokens_of v) (tokens_of_members fs) rest) (
          decode_members-member n obj key _ _ v unseen
            (decode_value-tokens_of v n (tokens_of_members fs ++ rest) d (omega (arith, both)))
          ∙ decode_members-tokens_of fs (set obj key v) n rest ds (IsNew-set obj fs key v new fresh)
              (omega (arith, both))
          ∙ ap (λ a. done a rest) (join-set obj fs key v))
