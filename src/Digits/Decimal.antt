-- ===== src/Digits/Decimal.antt =====
-- lib/digits.c: how long a decimal number is, and that it is made of bytes.
use nop.Base.{
  ℕ, zero, suc, ◌+◌, ◌^◌, ◌<◌, ◌≤◌, ◌≡◌, refl, ap, sym, ◌∙◌, arith, true, false, ◌&&◌, not, inl,
  inr, Bool-cases, List, [], ◌∷◌, length, ◌/◌, ◌%◌, ◌-◌, ◌==◌, Memory, IsBytes, write,
  write-IsBytes, of_list, AllBytes, of_list-IsBytes, codes,
}
use native.Mathlib.Nat.{pow-zero}
use nop.Digits.{digits, collect, put_all, put_digits, ulong_to_str}
use nop.Digits.Parse.{parse}
use nop.Digits.Print.{numeral, div_lt_pow, ulong_to_str-IsNumeral}

-- A value of `n` digits takes no more characters, however many there may be.
collect-length :
    (most n value : ℕ) (buffer : List ℕ)
    → n ≤ most
    → value < 10 ^ n
    → length (collect 10 most value buffer).0 ≤ length buffer + n
unfolding collect
collect-length zero n value buffer le fits = omega arith
collect-length (suc most) n value buffer le fits = elim (Bool-cases (value == 0)) [
  | inl done ↦ rw (done, collect) (omega arith)
  | inr more ↦
      rw (more, collect)
        (elim n
            as (λ k.
              k ≡ n
              → length (collect 10 most (value / 10) (digits (value % 10) ∷ buffer)).0
                ≤ length buffer + k) [
                  | zero ↦ λ e. absurd (ground (arith, pow-zero 10))
                  | suc k ↦ λ e.
                      let rest =
                        collect-length most k (value / 10) (digits (value % 10) ∷ buffer)
                          (omega arith) (div_lt_pow 10 k value (omega arith) (rw e fits)) in
                      omega (arith, rest)
                ]
          refl)
]

pub numeral-length : (value : ℕ) → value < 2 ^ 32 → length (numeral 10 12 value) < 12
unfolding numeral
numeral-length value small = elim (Bool-cases (value == 0)) [
  | inl none_left ↦
      let e : value ≡ 0 = ground arith in
      rw e (omega (arith, collect-length 11 0 0 [] (omega arith) (omega arith)))
  | inr more ↦
      let bound = collect-length 12 10 value [] (omega arith) (omega arith) in
      rw more (omega (arith, bound))
]

-- A 32-bit value takes 10 characters at most.
pub numeral-short :
    (most value : ℕ) → 10 ≤ most → value < 2 ^ 32 → length (numeral 10 most value) ≤ 10
unfolding numeral
numeral-short most value room small = elim (Bool-cases (value == 0)) [
  | inl none_left ↦
      let e : value ≡ 0 = ground arith in
      let first : not (most == 0) ≡ true = ground arith in
      rw (e, first) (omega (arith, collect-length (most - 1) 0 0 [] (omega arith) (omega arith)))
  | inr more ↦
      let bound = collect-length most 10 value [] room (omega arith) in
      let other : (not (most == 0) && value == 0) ≡ false = ground arith in
      rw other (omega (arith, bound))
]

-- The numbers below 2 ^ 32 print differently.
pub numeral-injective :
    (m n : ℕ) → m < 2 ^ 32 → n < 2 ^ 32 → numeral 10 12 m ≡ numeral 10 12 n → m ≡ n
numeral-injective m n low high e =
    let a =
      ulong_to_str-IsNumeral 10 (omega arith) (omega arith) (of_list []) m 3 12 (omega arith) low
        (omega arith) in
    let b =
      ulong_to_str-IsNumeral 10 (omega arith) (omega arith) (of_list []) n 3 12 (omega arith) high
        (omega arith) in
    sym a.parsed ∙ ap (parse 10 0) e ∙ b.parsed

collect-AllBytes :
    (n value : ℕ) (buffer : List ℕ) → AllBytes buffer → AllBytes (collect 10 n value buffer).0
unfolding collect
collect-AllBytes zero value buffer all = all
collect-AllBytes (suc n) value buffer all = elim (Bool-cases (value == 0)) [
  | inl done ↦ rw (done, collect) all
  | inr more ↦
      rw (more, collect)
        (collect-AllBytes n (value / 10) (digits (value % 10) ∷ buffer) (
          of_list-IsBytes (codes "0123456789ABCDEFGHIJKLMNOPQRSTUVWXYZ") (omega arith) (value % 10),
          all,
        ))
]

put_all-IsBytes :
    (cs : List ℕ) (mem : Memory) (str : ℕ)
    → AllBytes cs
    → IsBytes mem
    → IsBytes (put_all mem str cs).0
unfolding put_all
put_all-IsBytes [] mem str all bytes = bytes
put_all-IsBytes (c ∷ cs) mem str all bytes =
    put_all-IsBytes cs (write mem str c) (str + 1) all.1 (write-IsBytes mem str c bytes all.0)

put_digits-IsBytes :
    (mem : Memory) (value str n : ℕ) → IsBytes mem → IsBytes (put_digits mem value 10 str n)
unfolding put_digits
put_digits-IsBytes mem value str n bytes =
    let (buffer, left) = collect 10 n value [] in
    let all = put_all-IsBytes buffer mem str (collect-AllBytes n value [] tt) bytes in
    elim (Bool-cases (left == 0)) [
      | inl full ↦ rw full all
      | inr room ↦
          rw room (
            write-IsBytes (put_all mem str buffer).0 (put_all mem str buffer).1 0 all (omega arith))
    ]

pub ulong_to_str-IsBytes :
    (mem : Memory) (value str n : ℕ) → IsBytes mem → IsBytes (ulong_to_str mem value 10 str n)
unfolding ulong_to_str
ulong_to_str-IsBytes mem value str n bytes = elim (Bool-cases (not (n == 0) && value == 0)) [
  | inl zero_digit ↦ rw zero_digit (
      put_digits-IsBytes (write mem str b'0') value (str + 1) (n - 1)
        (write-IsBytes mem str b'0' bytes (omega arith)))
  | inr digits_only ↦ rw digits_only (put_digits-IsBytes mem value str n bytes)
]
