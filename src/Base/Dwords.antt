-- ===== src/Base/Dwords.antt =====
-- 32-bit words in byte memory, in the byte order of the i386.
use Prim.Native.Nat.{ℕ, ◌+◌, ◌*◌, ◌/◌, ◌^◌, ◌≤◌, ◌<◌}
use mathlib.Core.Path.{◌≡◌}
use mathlib.Core.Logic.{◌⊎◌}
use native.Mathlib.Omega.{arith}
use nop.Base.Tests.{◌==◌, if◌then◌else◌}
use nop.Base.Words.{u8, u32}
use nop.Base.Store.{Memory, write, IsBytes}

unfoldable pub load32 : Memory → ℕ → ℕ
load32 mem a = mem a + 2 ^ 8 * mem (a + 1) + 2 ^ 16 * mem (a + 2) + 2 ^ 24 * mem (a + 3)

unfoldable pub store32 : Memory → ℕ → ℕ → Memory
store32 mem a v =
    write (write (write (write mem a (u8 v)) (a + 1) (u8 (v / 2 ^ 8))) (a + 2) (u8 (v / 2 ^ 16)))
      (a + 3) (u8 (v / 2 ^ 24))

pub load32-store32 : (mem : Memory) (a v : ℕ) → load32 (store32 mem a v) a ≡ u32 v
unfolding load32 store32
load32-store32 mem a v = ground arith

pub load32-store32_apart :
    (mem : Memory) (a v b : ℕ)
    → (a + 4 ≤ b) ⊎ (b + 4 ≤ a)
    → load32 (store32 mem a v) b ≡ load32 mem b
unfolding load32 store32
load32-store32_apart mem a v b h = ground arith

pub store32_outside : (mem : Memory) (a v b : ℕ) → (a + 4 ≤ b) ⊎ (b < a) → store32 mem a v b ≡ mem b
unfolding store32
store32_outside mem a v b h = ground arith

pub load32-lt : (mem : Memory) (a : ℕ) → IsBytes mem → load32 mem a < 2 ^ 32
unfolding load32
load32-lt mem a h = omega (arith, h a, h (a + 1), h (a + 2), h (a + 3))

-- A word is stored as it was loaded.
pub store32-load32 :
    (mem src : Memory) (a s b : ℕ)
    → IsBytes src
    → store32 mem a (load32 src s) b ≡ (
        if a == b
        then src s
        else if a + 1 == b
        then src (s + 1)
        else if a + 2 == b
        then src (s + 2)
        else if a + 3 == b
        then src (s + 3)
        else mem b)
unfolding load32 store32
store32-load32 mem src a s b h = ground (arith, h s, h (s + 1), h (s + 2), h (s + 3))

pub store32-IsBytes : (mem : Memory) (a v : ℕ) → IsBytes mem → IsBytes (store32 mem a v)
unfolding store32
store32-IsBytes mem a v h b = ground (arith, h b)
