-- ===== src/Base/Int.antt =====
-- Go's signed integers, among them time.Duration in nanoseconds. `negsuc n` is -(n + 1).
use Prim.Native.Nat.{ℕ, suc, ◌+◌, ◌-◌, ◌%◌, ◌^◌, ◌≤◌}
use mathlib.Core.Path.{◌≡◌}
use mathlib.Core.Logic.{◌↔◌}
use mathlib.Core.Bool.{Bool, true, false, ◌||◌}
use native.Mathlib.Omega.{arith}
use anvilkit_agent_api.Base.Tests.{if◌then◌else◌, ltb, leb}

pub data ℤ : Type 0 where
  pos : ℕ → ℤ
  negsuc : ℕ → ℤ

-- `x < n`, for a bound that is not negative.
abbrev pub below : ℤ → ℕ → Bool
below (pos m) n = ltb m n
below (negsuc m) n = true

-- `x > n`, for a bound that is not negative.
abbrev pub above : ℤ → ℕ → Bool
above (pos m) n = ltb n m
above (negsuc m) n = false

abbrev pub ltb_ℤ : ℤ → ℤ → Bool
ltb_ℤ (pos a) (pos b) = ltb a b
ltb_ℤ (pos a) (negsuc b) = false
ltb_ℤ (negsuc a) (pos b) = true
ltb_ℤ (negsuc a) (negsuc b) = ltb b a

-- a - b, as an integer.
abbrev pub sub_ℕ : ℕ → ℕ → ℤ
sub_ℕ a b = if leb b a then pos (a - b) else negsuc (b - a - 1)

-- What a word of 32 bits reads as.
abbrev signed : ℕ → ℤ
signed n = if ltb n (2 ^ 31) then pos n else sub_ℕ n (2 ^ 32)

-- Go's conversion to int32.
abbrev pub int32 : ℤ → ℤ
int32 (pos n) = signed (n % 2 ^ 32)
int32 (negsuc n) = signed (2 ^ 32 - 1 - n % 2 ^ 32)

-- The int64 of a sum or difference of two: out of range it wraps round once.
abbrev pub int64 : ℤ → ℤ
int64 (pos n) = if ltb n (2 ^ 63) then pos n else sub_ℕ n (2 ^ 64)
int64 (negsuc n) = if ltb n (2 ^ 63) then negsuc n else pos (2 ^ 64 - suc n)

infixl 65 ◌+ℤ◌
abbrev pub ◌+ℤ◌ : ℤ → ℤ → ℤ
pos a +ℤ pos b = pos (a + b)
pos a +ℤ negsuc b = sub_ℕ a (suc b)
negsuc a +ℤ pos b = sub_ℕ b (suc a)
negsuc a +ℤ negsuc b = negsuc (suc (a + b))

-- The integer is a number between the bounds.
abbrev pub Within : ℕ → ℕ → ℤ → Type 0
Within lo hi (pos n) = (lo ≤ n) × (n ≤ hi)
Within lo hi (negsuc n) = ⊥

pub outside_iff : (x : ℤ) (lo hi : ℕ) → ((below x lo || above x hi) ≡ false) ↔ Within lo hi x
outside_iff (pos n) lo hi = ground arith
outside_iff (negsuc n) lo hi = ground arith
