-- ===== src/Base/Store.antt =====
-- Flat byte memory. The kernel runs without paging, so every address can be read and written.
use Prim.Native.Nat.{ℕ, zero, suc, ◌<◌, ◌^◌}
use Prim.Native.Char.{code}
use Prim.Native.String.{String}
use mathlib.Core.List.{List, [], ◌∷◌}
use nop.Base.Lists.{get_or}
use mathlib.Core.Path.{◌≡◌}
use mathlib.Core.Logic.{◌≢◌}
use native.Mathlib.Omega.{arith}
use nop.Base.Tests.{◌==◌, if◌then◌else◌}

abbrev pub Memory : Type 0
Memory = ℕ → ℕ

abbrev pub write : Memory → ℕ → ℕ → Memory
write mem a v b = if a == b then v else mem b

-- Every cell holds a byte.
abbrev pub IsBytes : Memory → Type 0
IsBytes mem = (a : ℕ) → mem a < 2 ^ 8

pub write_self : (mem : Memory) (a v : ℕ) → write mem a v a ≡ v
write_self mem a v = ground arith

pub write_ne : (mem : Memory) (a v b : ℕ) → a ≢ b → write mem a v b ≡ mem b
write_ne mem a v b h = ground arith

pub write-IsBytes : (mem : Memory) (a v : ℕ) → IsBytes mem → v < 2 ^ 8 → IsBytes (write mem a v)
write-IsBytes mem a v h hv b = ground (arith, h b)

-- Memory that holds a list of bytes from address 0 on, and zeros behind it.
abbrev pub of_list : List ℕ → Memory
of_list xs a = get_or xs a 0

abbrev pub AllBytes : List ℕ → Type 0
AllBytes [] = Unit {0}
AllBytes (x ∷ xs) = (x < 2 ^ 8) × AllBytes xs

pub of_list-IsBytes : (xs : List ℕ) → AllBytes xs → IsBytes (of_list xs)
of_list-IsBytes [] h a = omega arith
of_list-IsBytes (x ∷ xs) h zero = h.0
of_list-IsBytes (x ∷ xs) h (suc a) = of_list-IsBytes xs h.1 a

-- The code points of a text.
abbrev pub codes : String → List ℕ
codes String.[] = []
codes (String.◌∷◌ c s) = code c ∷ codes s
