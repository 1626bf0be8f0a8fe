-- ===== src/Digits/Examples.antt =====
-- lib/digits.c: runs, and the laws at small buffers.
use nop.Base.{ℕ, ◌≡◌, refl, arith, List, ◌∷◌, [], map, Memory, sub32, codes, of_list}
use nop.CString.{strchr, strchr_loop, toupper}
use nop.Digits.{
  collect, put_all, put_digits, ulong_to_str, pad, align_digits, ulong_to_str_align, parse_loop,
  str_to_ulong, long_to_str, str_to_long,
}
use nop.Digits.RoundTrip.{str_to_ulong-ulong_to_str, str_to_long-long_to_str}

abbrev blank : Memory
blank a = b'?'

abbrev first_five : Memory → List ℕ
first_five mem = map mem (0 ∷ 1 ∷ 2 ∷ 3 ∷ 4 ∷ [])

runs :
    (first_five (ulong_to_str blank 255 16 0 5) ≡ codes "FF\0??")
    × (first_five (ulong_to_str blank 0 10 0 5) ≡ codes "0\0???")
    × (first_five (ulong_to_str_align blank 0x1f 16 0 4) ≡ codes "001F\0")
    × (first_five (long_to_str blank (sub32 0 42) 10 0 5) ≡ codes "-42\0?")
unfolding collect put_all put_digits ulong_to_str pad align_digits ulong_to_str_align long_to_str
runs = (refl, refl, refl, refl)

-- Without room for all digits the leading ones are lost, not the last ones.
keeps_low_digits : first_five (ulong_to_str blank 12345 10 0 3) ≡ codes "345??"
unfolding collect put_all put_digits ulong_to_str
keeps_low_digits = refl

-- A digit above the base is not refused.
digit_above_base : str_to_ulong (of_list (codes "1A")) 10 0 2 ≡ 20
unfolding str_to_ulong parse_loop strchr strchr_loop toupper
digit_above_base = refl

str_to_ulong-ulong_to_str_example : str_to_ulong (ulong_to_str blank 48879 16 0 5) 16 0 5 ≡ 48879
str_to_ulong-ulong_to_str_example =
    str_to_ulong-ulong_to_str 16 (omega arith) (omega arith) blank 48879 0 5 (omega arith)
      (omega arith) (omega arith)

str_to_long-long_to_str_example :
    str_to_long (long_to_str blank (sub32 0 42) 10 0 5) 10 0 5 ≡ sub32 0 42
str_to_long-long_to_str_example =
    str_to_long-long_to_str 10 (omega arith) (omega arith) blank (sub32 0 42) 0 5 (omega arith)
      (omega arith) (omega arith)
