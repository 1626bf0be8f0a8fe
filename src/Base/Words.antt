-- ===== src/Base/Words.antt =====
-- Machine words of the i386 target as native numbers: an unsigned word is its value, a signed word
-- its two's complement pattern.
use Prim.Native.Nat.{ℕ, ◌+◌, ◌-◌, ◌*◌, ◌/◌, ◌%◌, ◌^◌}
use mathlib.Core.Bool.{Bool}
use nop.Base.Tests.{leb}

abbrev pub u8 : ℕ → ℕ
u8 n = n % 2 ^ 8

abbrev pub u16 : ℕ → ℕ
u16 n = n % 2 ^ 16

abbrev pub u32 : ℕ → ℕ
u32 n = n % 2 ^ 32

abbrev pub u64 : ℕ → ℕ
u64 n = n % 2 ^ 64

-- Subtraction of 32-bit words wraps.
abbrev pub sub32 : ℕ → ℕ → ℕ
sub32 a b = (a + 2 ^ 32 - b) % 2 ^ 32

-- The complement of a 32-bit word.
abbrev pub not32 : ℕ → ℕ
not32 a = 2 ^ 32 - 1 - a

-- Whether a 32-bit pattern stands for a negative number.
abbrev pub negative32 : ℕ → Bool
negative32 a = leb (2 ^ 31) a

infixl 75 ◌<<<◌ ◌>>>◌
abbrev pub ◌<<<◌ : ℕ → ℕ → ℕ
x <<< k = x * 2 ^ k

abbrev pub ◌>>>◌ : ℕ → ℕ → ℕ
x >>> k = x / 2 ^ k
