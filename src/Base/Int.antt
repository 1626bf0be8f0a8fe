-- ===== src/Base/Int.antt =====
-- Signed integers over the native numbers, under the library's names: what C's `int` differences and
-- `ssize_t` values stand for.
use Prim.Native.Nat.{ℕ, ◌+◌, ◌-◌, ◌<◌}
use mathlib.Core.Path.{◌≡◌}
use native.Mathlib.Omega.{arith}
use mathlib.Core.Logic.{◌↔◌}
use mathlib.Core.Bool.{Bool, true, false, ◌&&◌}
use nop.Base.Tests.{ltb, leb, ◌==◌, if◌then◌else◌}

-- `negsuc n` is -(n + 1).
pub data ℤ : Type 0 where
  pos : ℕ → ℤ
  negsuc : ℕ → ℤ

-- a - b, as an integer.
abbrev pub sub_ℕ : ℕ → ℕ → ℤ
sub_ℕ a b = if leb b a then pos (a - b) else negsuc (b - a - 1)

-- The value of an `int8_t`, moved up by 128.
abbrev pub biased8 : ℕ → ℕ
biased8 b = if ltb b 128 then b + 128 else b - 128

-- The difference of two bytes read as `int8_t`.
pub sub_int8 : ℕ → ℕ → ℤ
sub_int8 a b = sub_ℕ (biased8 a) (biased8 b)

pub eq_of_sub_int8 : (a b : ℕ) → a < 256 → b < 256 → sub_int8 a b ≡ pos 0 → a ≡ b
unfolding sub_int8
eq_of_sub_int8 a b ha hb h = ground arith

-- C's `!` of an `int`.
abbrev pub is_zero : ℤ → Bool
is_zero (pos n) = n == 0
is_zero (negsuc n) = false

-- The test `!b && !z` of a lookup by name.
pub split_test : (b : ℕ) (z : ℤ) → ((b == 0 && is_zero z) ≡ true) ↔ ((b ≡ 0) × (z ≡ pos 0))
split_test b (pos n) = ground arith
split_test b (negsuc n) = ground arith

pub is_zero-sub_int8 : (a b : ℕ) → a < 256 → b < 256 → is_zero (sub_int8 a b) ≡ (a == b)
unfolding sub_int8
is_zero-sub_int8 a b ha hb = ground arith
