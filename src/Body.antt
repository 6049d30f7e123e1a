-- ===== src/Body.antt =====
-- The strict request body (internal/transport/http/server.go: strictBody, strictDecode, decodeValue,
-- jsonError; internal/application/principal.go: CanonicalDigest). Go's json.Decoder is read as the
-- tokens of the document: `failure left` is the error of `dec.Token` where it cannot go on with the
-- tokens `left`, at the end of the input or at a token that the grammar does not allow there. The
-- decoder itself refuses a key that is not a string and a bracket of the wrong kind, so the branch
-- of decodeValue on an unexpected delimiter is that failure too.
pub mod Tokens
pub mod Sound
pub mod Fuel
pub mod Request
mod Examples
use text.Mathlib.Text.{◌==◌ as str_eq}
use anvilkit_agent_api.Base.{
  ℕ, zero, suc, ◌*◌, String, Bool, true, false, ◌||◌, List, [], ◌∷◌, length, if◌then◌else◌,
}

-- A value that is no object and no array; a number is kept as it is written (json.Number).
pub data Scalar : Type 0 where
  string : String → Scalar
  number : String → Scalar
  boolean : Bool → Scalar
  null : Scalar

pub data Token : Type 0 where
  open_object close_object open_array close_array : Token
  scalar : Scalar → Token

-- Go's decoded document. The members of a map stand in the order in which they came.
mutual
  pub data Value : Type 0 where
    plain : Scalar → Value
    array : Items → Value
    object : Members → Value

  pub data Items : Type 0 where
    no_items : Items
    item : Value → Items → Items

  pub data Members : Type 0 where
    no_members : Members
    member : String → Value → Members → Members

pub data DecodeError : Type 0 where
  duplicate_member : DecodeError
  eof : DecodeError
  syntax : ℕ → DecodeError
  other : DecodeError

-- `exhausted` is the fuel's end, no answer of the code.
pub data Decoded (A : Type 0) : Type 0 where
  done : A → List Token → Decoded A
  failed : DecodeError → Decoded A
  exhausted : Decoded A

-- `_, dup := obj[key]`
unfoldable pub has : String → Members → Bool
has key no_members = false
has key (member name value rest) = str_eq key name || has key rest

-- `obj[key] = val`, for a key that the object has not got.
unfoldable pub set : Members → String → Value → Members
set no_members key value = member key value no_members
set (member name old rest) key value = member name old (set rest key value)

-- `append(arr, val)`
unfoldable pub add_item : Items → Value → Items
add_item no_items value = item value no_items
add_item (item first rest) value = item first (add_item rest value)

-- What strictDecode answers; a trailing value and a broken tail are refused alike.
pub data Strict : Type 0 where
  accepted : Value → Strict
  invalid : DecodeError → Strict
  trailing : Strict
  no_fuel : Strict

-- `if err != nil { return nil, err }`
abbrev pub and_then : {A B : Type 0} → Decoded A → (A → List Token → Decoded B) → Decoded B
and_then (done a left) f = f a left
and_then (failed e) f = failed e
and_then exhausted f = exhausted

-- The next `Token` is the end of the input.
abbrev pub at_end : DecodeError → List Token → Bool
at_end eof [] = true
at_end _ _ = false

-- The fuel that a document of so many tokens takes at most.
abbrev pub enough : List Token → ℕ
enough ts = suc (2 * length ts)

module _ (failure : List Token → DecodeError) where
  -- decodeValue, with the loops over an object's members and over an array's items. `More` is false
  -- at a closing bracket and at the end, where the next `Token` is the bracket or the failure.
  unfoldable mutual
    pub decode_value : ℕ → List Token → Decoded Value
    decode_value zero ts = exhausted
    decode_value (suc n) (scalar s ∷ ts) = done (plain s) ts
    decode_value (suc n) (open_object ∷ ts) =
        and_then (decode_members n no_members ts) λ obj left. done (object obj) left
    decode_value (suc n) (open_array ∷ ts) =
        and_then (decode_items n no_items ts) λ arr left. done (array arr) left
    decode_value (suc n) ts = failed (failure ts)

    pub decode_members : ℕ → Members → List Token → Decoded Members
    decode_members zero obj ts = exhausted
    decode_members (suc n) obj (close_object ∷ ts) = done obj ts
    decode_members (suc n) obj (scalar (string key) ∷ ts) = elim (has key obj) [
      | true ↦ failed duplicate_member
      | false ↦ and_then (decode_value n ts) λ value left. decode_members n (set obj key value) left
    ]
    decode_members (suc n) obj ts = failed (failure ts)

    pub decode_items : ℕ → Items → List Token → Decoded Items
    decode_items zero arr ts = exhausted
    decode_items (suc n) arr (close_array ∷ ts) = done arr ts
    decode_items (suc n) arr ts =
        and_then (decode_value n ts) λ value left. decode_items n (add_item arr value) left

  abbrev pub finish : Decoded Value → Strict
  finish (done value left) = if at_end (failure []) left then accepted value else trailing
  finish (failed e) = invalid e
  finish exhausted = no_fuel

  unfoldable pub strict_decode : List Token → Strict
  unfolding decode_value
  strict_decode ts = finish (decode_value (enough ts) ts)
