-- ===== src/Digits.antt =====
-- lib/digits.c: numbers printed to and parsed from byte memory. `long` values are two's complement
-- patterns of 32 bits. `buffer` is the list of the characters written so far, the last one first,
-- which is the order in which the second loop of `ulong_to_str` takes them out again.
pub mod Parse
pub mod Print
pub mod Align
pub mod Decimal
pub mod RoundTrip
mod Examples
use nop.Base.{
  ℕ, zero, suc, ◌+◌, ◌-◌, ◌*◌, ◌/◌, ◌%◌, ◌^◌, Bool, true, false, ◌&&◌, not, Option, none, some,
  List, [], ◌∷◌, ◌==◌, if◌then◌else◌, u32, sub32, negative32, Memory, write, of_list, codes,
}
use nop.CString.{strchr, toupper}

-- The static string `digits`.
abbrev pub digits : Memory
digits = of_list (codes "0123456789ABCDEFGHIJKLMNOPQRSTUVWXYZ")

-- `while (n && value)` of `ulong_to_str`: the buffer and what is left of `n`.
unfoldable pub collect : ℕ → ℕ → ℕ → List ℕ → List ℕ × ℕ
collect base zero value buffer = (buffer, 0)
collect base (suc n) value buffer = elim (value == 0) [
  | true ↦ (buffer, suc n)
  | false ↦ collect base n (value / base) (digits (value % base) ∷ buffer)
]

-- `while (length--)`: the memory and the pointer behind the last character.
unfoldable pub put_all : Memory → ℕ → List ℕ → Memory × ℕ
put_all mem str [] = (mem, str)
put_all mem str (c ∷ buffer) = put_all (write mem str c) (str + 1) buffer

-- The part of `ulong_to_str` behind its first `if`.
unfoldable pub put_digits : Memory → ℕ → ℕ → ℕ → ℕ → Memory
put_digits mem value base str n =
    let (buffer, n) = collect base n value [] in
    let (mem, str) = put_all mem str buffer in if n == 0 then mem else write mem str 0

unfoldable pub ulong_to_str : Memory → ℕ → ℕ → ℕ → ℕ → Memory
ulong_to_str mem value base str n =
    if not (n == 0) && value == 0
    then put_digits (write mem str b'0') value base (str + 1) (n - 1)
    else put_digits mem value base str n

-- `while (n--) *(str--) = '0'`, and `while (n && value)` of `ulong_to_str_align`; `str` is the address
-- of the next character to write, plus one.
unfoldable pub pad : Memory → ℕ → ℕ → Memory
pad mem str zero = mem
pad mem str (suc n) = pad (write mem (str - 1) b'0') (str - 1) n

unfoldable pub align_digits : Memory → ℕ → ℕ → ℕ → ℕ → Memory
align_digits mem value base str zero = mem
align_digits mem value base str (suc n) = elim (value == 0) [
  | true ↦ pad mem str (suc n)
  | false ↦
      align_digits (write mem (str - 1) (digits (value % base))) (value / base) base (str - 1) n
]

unfoldable pub ulong_to_str_align : Memory → ℕ → ℕ → ℕ → ℕ → Memory
ulong_to_str_align mem value base str n =
    align_digits (write mem (str + n) 0) value base (str + n) n

unfoldable pub parse_loop : Memory → ℕ → ℕ → ℕ → ℕ → ℕ
parse_loop mem base str zero value = value
parse_loop mem base str (suc n) value = elim (mem str == 0) [
  | true ↦ value
  | false ↦ elim (strchr digits 0 (toupper (mem str))) [
    | none ↦ value
    | some ptr ↦ parse_loop mem base (str + 1) n (u32 (u32 (value * base) + (ptr - 0)))
  ]
]

unfoldable pub str_to_ulong : Memory → ℕ → ℕ → ℕ → ℕ
str_to_ulong mem base str n = parse_loop mem base str n 0

unfoldable pub long_to_str : Memory → ℕ → ℕ → ℕ → ℕ → Memory
long_to_str mem value base str n =
    if n == 0
    then mem
    else if negative32 value
    then ulong_to_str (write mem str b'-') (sub32 0 value) base (str + 1) (n - 1)
    else ulong_to_str mem value base str n

unfoldable pub str_to_long : Memory → ℕ → ℕ → ℕ → ℕ
str_to_long mem base str n =
    if n == 0
    then 0
    else if mem str == b'-'
    then sub32 0 (str_to_ulong mem base (str + 1) (n - 1))
    else str_to_ulong mem base str n
