-- ===== src/CString.antt =====
-- lib/string.c and lib/ctype.c over byte memory. A pointer is an address, NULL is `none`; a `char` is
-- its byte. The functions that return their first argument return the memory alone. A scan for a
-- terminator is given as many rounds as there are addresses.
pub mod Copy
pub mod Length
pub mod Compare
pub mod Find
mod Examples
use nop.Base.{
  ℕ, zero, suc, ◌+◌, ◌-◌, ◌^◌, Bool, true, false, ◌&&◌, Option, none, some, ltb, leb, ◌==◌,
  if◌then◌else◌, Memory, write,
}
use nop.Base.Int.{ℤ, pos, sub_int8}

abbrev pub address_space : ℕ
address_space = 2 ^ 32

unfoldable pub strlen_loop : ℕ → Memory → ℕ → ℕ → ℕ
strlen_loop zero mem str n = n
strlen_loop (suc fuel) mem str n = elim (mem (str + n) == 0) [
  | true ↦ n
  | false ↦ strlen_loop fuel mem str (n + 1)
]

unfoldable pub strlen : Memory → ℕ → ℕ
strlen mem str = strlen_loop address_space mem str 0

unfoldable pub memcpy : Memory → ℕ → ℕ → ℕ → Memory
memcpy mem s1 s2 zero = mem
memcpy mem s1 s2 (suc n) = memcpy (write mem s1 (mem s2)) (s1 + 1) (s2 + 1) n

-- `memcpy` from another object, which the writes do not reach.
unfoldable pub memcpy_from : Memory → Memory → ℕ → ℕ → ℕ → Memory
memcpy_from src mem s1 s2 zero = mem
memcpy_from src mem s1 s2 (suc n) = memcpy_from src (write mem s1 (src s2)) (s1 + 1) (s2 + 1) n

unfoldable pub memmove_down : Memory → ℕ → ℕ → ℕ → Memory
memmove_down mem s1 s2 zero = mem
memmove_down mem s1 s2 (suc n) =
    memmove_down (write mem (s1 - 1) (mem (s2 - 1))) (s1 - 1) (s2 - 1) n

unfoldable pub memmove : Memory → ℕ → ℕ → ℕ → Memory
memmove mem s1 s2 n = if ltb s1 s2 then memcpy mem s1 s2 n else memmove_down mem (s1 + n) (s2 + n) n

unfoldable pub strcpy : Memory → ℕ → ℕ → Memory
strcpy mem s1 s2 = memcpy mem s1 s2 (strlen mem s2 + 1)

unfoldable pub strcat : Memory → ℕ → ℕ → Memory
strcat mem s1 s2 = strcpy mem (s1 + strlen mem s1) s2

-- The comparisons take the memory of each argument, so that they serve two objects.
unfoldable pub memcmp : Memory → ℕ → Memory → ℕ → ℕ → ℤ
memcmp m1 s1 m2 s2 zero = pos 0
memcmp m1 s1 m2 s2 (suc n) = elim (m1 s1 == m2 s2) [
  | true ↦ memcmp m1 (s1 + 1) m2 (s2 + 1) n
  | false ↦ sub_int8 (m1 s1) (m2 s2)
]

unfoldable pub strcmp : Memory → ℕ → Memory → ℕ → ℤ
strcmp m1 s1 m2 s2 = memcmp m1 s1 m2 s2 (strlen m1 s1)

unfoldable pub strncmp : Memory → ℕ → Memory → ℕ → ℕ → ℤ
strncmp m1 s1 m2 s2 zero = pos 0
strncmp m1 s1 m2 s2 (suc n) = elim (m1 s1 == m2 s2) [
  | true ↦ elim (m1 s1 == 0) [ true ↦ pos 0 | false ↦ strncmp m1 (s1 + 1) m2 (s2 + 1) n ]
  | false ↦ sub_int8 (m1 s1) (m2 s2)
]

unfoldable pub strchr_loop : ℕ → Memory → ℕ → ℕ → Option ℕ
strchr_loop zero mem str c = none
strchr_loop (suc fuel) mem str c = elim (mem str == 0) [
  | true ↦ none
  | false ↦ elim (mem str == c) [ true ↦ some str | false ↦ strchr_loop fuel mem (str + 1) c ]
]

unfoldable pub strchr : Memory → ℕ → ℕ → Option ℕ
strchr mem str c = strchr_loop address_space mem str c

unfoldable pub strchrnul : Memory → ℕ → ℕ → ℕ
strchrnul mem str c = elim (strchr mem str c) [ some ptr ↦ ptr | none ↦ str + strlen mem str ]

unfoldable pub memset : Memory → ℕ → ℕ → ℕ → Memory
memset mem ptr c zero = mem
memset mem ptr c (suc n) = memset (write mem ptr c) (ptr + 1) c n

unfoldable pub isdigit : ℕ → Bool
isdigit chr = leb b'0' chr && leb chr b'9'

unfoldable pub toupper : ℕ → ℕ
toupper chr = if leb b'a' chr && leb chr b'z' then chr - b'a' + b'A' else chr

unfoldable pub tolower : ℕ → ℕ
tolower chr = if leb b'A' chr && leb chr b'Z' then chr - b'A' + b'a' else chr
