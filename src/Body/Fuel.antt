-- ===== src/Body/Fuel.antt =====
-- The fuel of strictDecode is enough for every input, also one that is refused.
use anvilkit_agent_api.Base.{
  ℕ, zero, suc, ◌+◌, ◌*◌, ◌≤◌, ◌<◌, ◌≡◌, refl, ap, ◌≢◌, List, [], ◌∷◌, length, length-append, arith,
  inl, inr, Bool-cases,
}
use anvilkit_agent_api.Body.{
  Token, string, open_object, close_object, open_array, close_array, scalar, Value, Items, no_items,
  Members, no_members, DecodeError, Decoded, done, failed, exhausted, has, set, add_item, and_then,
  duplicate_member, decode_value, decode_members, decode_items, array, object,
}
use anvilkit_agent_api.Body.Tokens.{tokens_of, tokens_of-pos}
use anvilkit_agent_api.Body.Sound.{decode_value_sound}

abbrev Answers : {A : Type 0} → Decoded A → Type 0
Answers r = r ≢ exhausted

done-Answers : {A : Type 0} (a : A) (left : List Token) → Answers (done a left)
done-Answers a left h = let stop : done a left ≡ exhausted = h in cc

failed-Answers : {A : Type 0} (e : DecodeError) → Answers {A = A} (failed e)
failed-Answers e h = let stop : failed e ≡ exhausted = h in cc

and_then-Answers :
    {A B : Type 0} (r : Decoded A) (f : A → List Token → Decoded B)
    → Answers r
    → ((a : A) (left : List Token) → r ≡ done a left → Answers (f a left))
    → Answers (and_then r f)
and_then-Answers (done a left) f h k = k a left refl
and_then-Answers (failed e) f h k = failed-Answers e
and_then-Answers exhausted f h k = absurd (h refl)

module _ (failure : List Token → DecodeError) where
  -- A value that was read leaves fewer tokens.
  decode_value-lt :
      (n : ℕ) (ts left : List Token) (v : Value)
      → decode_value failure n ts ≡ done v left
      → length left < length ts
  decode_value-lt n ts left v h =
      let read = (decode_value_sound failure n ts v left h).0 in
      omega (arith, ap length read, length-append (tokens_of v) left, tokens_of-pos v)

  abbrev next_items : ℕ → Items → Decoded Value → Decoded Items
  next_items n arr r = and_then r λ value left. decode_items failure n (add_item arr value) left

  mutual
    unfolding decode_value

    pub decode_value-Answers :
        (n : ℕ) (ts : List Token) → suc (2 * length ts) ≤ n → Answers (decode_value failure n ts)
    decode_value-Answers zero ts h = absurd (omega arith)
    decode_value-Answers (suc n) [] h = failed-Answers _
    decode_value-Answers (suc n) (close_array ∷ ts) h = failed-Answers _
    decode_value-Answers (suc n) (close_object ∷ ts) h = failed-Answers _
    decode_value-Answers (suc n) (scalar s ∷ ts) h = done-Answers _ _
    decode_value-Answers (suc n) (open_array ∷ ts) h =
        and_then-Answers (decode_items failure n no_items ts) _
          (decode_items-Answers n no_items ts (omega arith))
          λ arr left e. done-Answers (array arr) left
    decode_value-Answers (suc n) (open_object ∷ ts) h =
        and_then-Answers (decode_members failure n no_members ts) _
          (decode_members-Answers n no_members ts (omega arith))
          λ obj left e. done-Answers (object obj) left

    decode_items-Answers :
        (n : ℕ) (arr : Items) (ts : List Token)
        → 2 * length ts + 2 ≤ n
        → Answers (decode_items failure n arr ts)
    decode_items-Answers zero arr ts h = absurd (omega arith)
    decode_items-Answers (suc n) arr (close_array ∷ ts) h = done-Answers _ _
    decode_items-Answers (suc n) arr ts h =
        and_then-Answers (decode_value failure n ts)
          (λ value left. decode_items failure n (add_item arr value) left)
          (decode_value-Answers n ts (omega arith))
          λ value left e.
            decode_items-Answers n (add_item arr value) left
              (omega (arith, decode_value-lt n ts left value e))

    decode_members-Answers :
        (n : ℕ) (obj : Members) (ts : List Token)
        → suc (2 * length ts) ≤ n
        → Answers (decode_members failure n obj ts)
    decode_members-Answers zero obj ts h = absurd (omega arith)
    decode_members-Answers (suc n) obj (close_object ∷ ts) h = done-Answers _ _
    decode_members-Answers (suc n) obj (scalar (string key) ∷ ts) h =
        elim (Bool-cases (has key obj)) [
          | inl dup ↦ rw (dup, decode_members) (failed-Answers duplicate_member)
          | inr unseen ↦
              rw (unseen, decode_members)
                (and_then-Answers (decode_value failure n ts)
                  (λ value left. decode_members failure n (set obj key value) left)
                  (decode_value-Answers n ts (omega arith))
                  λ value left e.
                    decode_members-Answers n (set obj key value) left
                      (omega (arith, decode_value-lt n ts left value e)))
        ]
    decode_members-Answers (suc n) obj ts h = failed-Answers _
