-- ===== src/Body/Sound.antt =====
-- What decodeValue has read when it answers a value.
use anvilkit_agent_api.Base.{
  ℕ, zero, suc, ◌≡◌, refl, sym, ◌∙◌, List, [], ◌∷◌, ◌++◌, ◌⊎◌, inl, inr, Bool-cases,
}
use mathlib.Core.List.{append_assoc}
use anvilkit_agent_api.Body.{
  string, Token, open_object, close_object, open_array, close_array, scalar, Value, plain, array,
  object, Items, no_items, item, Members, no_members, member, DecodeError, Decoded, done, failed,
  exhausted, has, set, add_item, and_then, duplicate_member, decode_value, decode_members,
  decode_items, boolean, number, null,
}
use anvilkit_agent_api.Body.Tokens.{
  tokens_of, tokens_of_items, tokens_of_members, IsDistinct, ItemsDistinct, MembersDistinct, IsNew,
  join_members, join_items, join-set, join-add_item, join-no_members, join-no_items, IsNew-unset,
}

abbrev Read : {A : Type 0} → Decoded A → Type 0
Read {A} r = (a : A) × (left : List Token) × (r ≡ done a left)

abbrev Stopped : {A : Type 0} → Decoded A → Type 0
Stopped r = ((e : DecodeError) × (r ≡ failed e)) ⊎ (r ≡ exhausted)

pub Decoded-cases : {A : Type 0} (r : Decoded A) → Read r ⊎ Stopped r
Decoded-cases (done a left) = inl (a, left, refl)
Decoded-cases (failed e) = inr (inl (e, refl))
Decoded-cases exhausted = inr (inr refl)

and_then-done :
    {A B : Type 0} (r : Decoded A) (f : A → List Token → Decoded B) (b : B) (left : List Token)
    → and_then r f ≡ done b left
    → (a : A) × (mid : List Token) × (r ≡ done a mid) × (f a mid ≡ done b left)
and_then-done (done a mid) f b left h = (a, mid, refl, h)
and_then-done (failed e) f b left h = let stop : failed e ≡ done b left = h in cc
and_then-done exhausted f b left h = let stop : exhausted ≡ done b left = h in cc

array_read :
    (xs ys : Items) (ts mid : List Token) (v : Value) (left : List Token)
    → xs ≡ join_items no_items ys
    → array xs ≡ v
    → mid ≡ left
    → ts ≡ tokens_of_items ys ++ mid
    → ItemsDistinct ys
    → (open_array ∷ ts ≡ tokens_of v ++ left) × IsDistinct v
unfolding tokens_of IsDistinct join_items
array_read xs ys ts mid v left joined same rest read d = rw (← same, ← rest, joined, read) (refl, d)

object_read :
    (obj fs : Members) (ts mid : List Token) (v : Value) (left : List Token)
    → obj ≡ join_members no_members fs
    → object obj ≡ v
    → mid ≡ left
    → ts ≡ tokens_of_members fs ++ mid
    → MembersDistinct fs
    → (open_object ∷ ts ≡ tokens_of v ++ left) × IsDistinct v
unfolding tokens_of IsDistinct join_members
object_read obj fs ts mid v left joined same rest read d =
    rw (← same, ← rest, joined, read) (refl, d)

module _ (failure : List Token → DecodeError) where
  abbrev OneMore : ℕ → Items → List Token → Items → List Token → Type 0
  OneMore n arr ts out left =
      (v : Value) × (mid : List Token) × (decode_value failure n ts ≡ done v mid)
      × (decode_items failure n (add_item arr v) mid ≡ done out left)

  -- The loop over an array's items has met the bracket, or one more item.
  decode_items-cases :
      (n : ℕ) (arr : Items) (ts : List Token) (out : Items) (left : List Token)
      → decode_items failure (suc n) arr ts ≡ done out left
      → ((ts ≡ close_array ∷ left) × (arr ≡ out)) ⊎ OneMore n arr ts out left
  unfolding decode_value
  decode_items-cases n arr [] out left h =
      inr (and_then-done (decode_value failure n []) _ out left h)
  decode_items-cases n arr (close_array ∷ ts) out left h =
      let same : arr ≡ out = cc in let rest : ts ≡ left = cc in inl (rw rest, same)
  decode_items-cases n arr (close_object ∷ ts) out left h =
      inr (and_then-done (decode_value failure n (close_object ∷ ts)) _ out left h)
  decode_items-cases n arr (open_object ∷ ts) out left h =
      inr (and_then-done (decode_value failure n (open_object ∷ ts)) _ out left h)
  decode_items-cases n arr (open_array ∷ ts) out left h =
      inr (and_then-done (decode_value failure n (open_array ∷ ts)) _ out left h)
  decode_items-cases n arr (scalar s ∷ ts) out left h =
      inr (and_then-done (decode_value failure n (scalar s ∷ ts)) _ out left h)

  mutual
    unfolding decode_value tokens_of IsDistinct IsNew

    pub decode_value_sound :
        (n : ℕ) (ts : List Token) (v : Value) (left : List Token)
        → decode_value failure n ts ≡ done v left
        → (ts ≡ tokens_of v ++ left) × IsDistinct v
    decode_value_sound zero ts v left h = let stop : exhausted ≡ done v left = h in cc
    decode_value_sound (suc n) [] v left h = let stop : failed (failure []) ≡ done v left = h in cc
    decode_value_sound (suc n) (close_array ∷ ts) v left h =
        let stop : failed (failure (close_array ∷ ts)) ≡ done v left = h in cc
    decode_value_sound (suc n) (close_object ∷ ts) v left h =
        let stop : failed (failure (close_object ∷ ts)) ≡ done v left = h in cc
    decode_value_sound (suc n) (scalar s ∷ ts) v left h =
        let same : plain s ≡ v = cc in let rest : ts ≡ left = cc in rw (← same, ← rest) (refl, tt)
    decode_value_sound (suc n) (open_array ∷ ts) v left h =
        let (xs, mid, r, e) =
          and_then-done (decode_items failure n no_items ts) (λ arr more. done (array arr) more) v
            left h in
        let same : array xs ≡ v = cc in
        let rest : mid ≡ left = cc in
        let (ys, joined, read, d) = decode_items_sound n no_items ts xs mid r in
        array_read xs ys ts mid v left joined same rest read d
    decode_value_sound (suc n) (open_object ∷ ts) v left h =
        let (fs, mid, r, e) =
          and_then-done (decode_members failure n no_members ts)
            (λ obj more. done (object obj) more) v left h in
        let same : object fs ≡ v = cc in
        let rest : mid ≡ left = cc in
        let (gs, joined, read, new, d) = decode_members_sound n no_members ts fs mid r in
        object_read fs gs ts mid v left joined same rest read d

    decode_items_sound :
        (n : ℕ) (arr : Items) (ts : List Token) (out : Items) (left : List Token)
        → decode_items failure n arr ts ≡ done out left
        → (xs : Items) × (out ≡ join_items arr xs)
          × (ts ≡ tokens_of_items xs ++ left)
          × ItemsDistinct xs
    decode_items_sound zero arr ts out left h = let stop : exhausted ≡ done out left = h in cc
    decode_items_sound (suc n) arr ts out left h = elim (decode_items-cases n arr ts out left h) [
      | inl (read, same) ↦ (no_items, sym same ∙ sym (join-no_items arr), read, tt)
      | inr (v, mid, r, more) ↦
          let (ts_v, d) = decode_value_sound n ts v mid r in
          let (xs, joined, read, ds) = decode_items_sound n (add_item arr v) mid out left more in
          (
            item v xs,
            joined ∙ join-add_item arr xs v,
            rw (ts_v, read) (sym (append_assoc (tokens_of v) (tokens_of_items xs) left)),
            (d, ds),
          )
    ]

    decode_members_sound :
        (n : ℕ) (obj : Members) (ts : List Token) (out : Members) (left : List Token)
        → decode_members failure n obj ts ≡ done out left
        → (fs : Members) × (out ≡ join_members obj fs)
          × (ts ≡ tokens_of_members fs ++ left)
          × IsNew obj fs
          × MembersDistinct fs
    decode_members_sound zero obj ts out left h = let stop : exhausted ≡ done out left = h in cc
    decode_members_sound (suc n) obj [] out left h =
        let stop : failed (failure []) ≡ done out left = h in cc
    decode_members_sound (suc n) obj (open_array ∷ ts) out left h =
        let stop : failed (failure (open_array ∷ ts)) ≡ done out left = h in cc
    decode_members_sound (suc n) obj (close_array ∷ ts) out left h =
        let stop : failed (failure (close_array ∷ ts)) ≡ done out left = h in cc
    decode_members_sound (suc n) obj (open_object ∷ ts) out left h =
        let stop : failed (failure (open_object ∷ ts)) ≡ done out left = h in cc
    decode_members_sound (suc n) obj (scalar (number s) ∷ ts) out left h =
        let stop : failed (failure (scalar (number s) ∷ ts)) ≡ done out left = h in cc
    decode_members_sound (suc n) obj (scalar (boolean b) ∷ ts) out left h =
        let stop : failed (failure (scalar (boolean b) ∷ ts)) ≡ done out left = h in cc
    decode_members_sound (suc n) obj (scalar null ∷ ts) out left h =
        let stop : failed (failure (scalar null ∷ ts)) ≡ done out left = h in cc
    decode_members_sound (suc n) obj (close_object ∷ ts) out left h =
        let same : obj ≡ out = cc in
        let rest : ts ≡ left = cc in
        (no_members, sym same ∙ sym (join-no_members obj), rw rest, tt, tt)
    decode_members_sound (suc n) obj (scalar (string key) ∷ ts) out left h =
        elim (Bool-cases (has key obj)) [
          | inl dup ↦
              let stop : failed duplicate_member ≡ done out left = rw (dup, decode_members) at h in
              cc
          | inr unseen ↦
              let (v, mid, r, more) =
                and_then-done (decode_value failure n ts)
                  (λ value rest. decode_members failure n (set obj key value) rest) out left
                  (rw (unseen, decode_members) at h) in
              let (ts_v, d) = decode_value_sound n ts v mid r in
              let (fs, joined, read, new, ds) =
                decode_members_sound n (set obj key v) mid out left more in
              let (old, fresh) = IsNew-unset obj fs key v new in
              (
                member key v fs,
                joined ∙ join-set obj fs key v,
                rw (ts_v, read, append_assoc (tokens_of v) (tokens_of_members fs) left) refl,
                (unseen, old),
                (fresh, d, ds),
              )
        ]
