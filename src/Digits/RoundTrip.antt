-- ===== src/Digits/RoundTrip.antt =====
-- lib/digits.c: printing and parsing are inverse.
use mathlib.Core.Path.{subst}
use nop.Base.{
  ℕ, zero, suc, ◌+◌, ◌-◌, ◌^◌, ◌≤◌, ◌<◌, ◌≡◌, ◌≢◌, refl, arith, Bool, true, false, List, [], ◌∷◌,
  ◌==◌, if◌then◌else◌, sub32, negative32, Memory, write, length, ap, ◌∙◌, sym, inl, inr, Bool-cases,
  write_self,
}
use nop.CString.Length.{IsString}
use nop.Digits.{ulong_to_str, ulong_to_str_align, str_to_ulong, long_to_str, str_to_long}
use nop.Digits.Parse.{parse, IsText, parse_loop-parse}
use nop.Digits.Print.{Printed, ulong_to_str-IsNumeral, str_to_ulong-IsNumeral}
use nop.Digits.Align.{IsAligned, align_digits-IsAligned}

IsText-nonzero :
    (cs : List ℕ) (mem : Memory) (str i : ℕ) → IsText mem str cs → i < length cs → mem (str + i) ≢ 0
IsText-nonzero [] mem str i t h z = absurd (omega arith)
IsText-nonzero (c ∷ cs) mem str zero t h z = t.1 (sym t.0 ∙ sym (ap mem (at_zero str)) ∙ z)
  where
    at_zero : (s : ℕ) → s + 0 ≡ s
    at_zero s = omega arith
IsText-nonzero (c ∷ cs) mem str (suc i) t h z =
    IsText-nonzero cs mem (str + 1) i t.2 (omega arith) (ap mem (step i) ∙ z)
  where
    step : (k : ℕ) → str + 1 + k ≡ str + suc k
    step k = omega arith

unsigned_first :
    (cs : List ℕ) (out : Memory) (str n : ℕ)
    → IsText out str cs
    → Printed cs
    → 0 < n
    → (length cs < n → out (str + length cs) ≡ 0)
    → (out str == b'-') ≡ false
unsigned_first [] out str n t p pos end = ground (arith, end pos, ap out (at_zero str))
  where
    at_zero : (s : ℕ) → s + 0 ≡ s
    at_zero s = omega arith
unsigned_first (c ∷ cs) out str n t p pos end = ground (arith, t.0, p.1)

module _ (base : ℕ) (base_low : 2 ≤ base) (base_high : base ≤ 36) where
  -- In every base from 2 to 36, `str_to_ulong` gives back the 32-bit value that `ulong_to_str`
  -- printed in a buffer of `n` characters, if `n` digits hold the value.
  pub str_to_ulong-ulong_to_str :
      (mem : Memory) (value str n : ℕ)
      → 0 < n
      → value < 2 ^ 32
      → value < base ^ n
      → str_to_ulong (ulong_to_str mem value base str n) base str n ≡ value
  str_to_ulong-ulong_to_str mem value str n pos small fits =
      str_to_ulong-IsNumeral
        (ulong_to_str-IsNumeral base base_low base_high mem value str n pos small fits)

  aligned :
      {mem : Memory} (str n value : ℕ) {out : Memory}
      → mem (str + n) ≡ 0
      → IsAligned base base_low base_high mem str n value [] out
      → IsString out str n × (str_to_ulong out base str n ≡ value)
  unfolding str_to_ulong
  aligned str n value {out} end a =
      let counted : length a.chars ≡ n = omega (arith, a.counted) in
      (
        record {
          nonzero = λ i h. IsText-nonzero a.chars out str i a.text (omega arith);
          terminated = a.behind (str + n) (omega arith) ∙ end;
        },
        parse_loop-parse a.chars out base str n 0 a.text (omega arith) (λ h. absurd (omega arith))
            ∙ a.parsed
            ∙ unfold parse in refl,
      )

  -- `ulong_to_str_align` leaves a string of exactly `n` characters that reads back as the value, if
  -- `n` digits hold it.
  pub ulong_to_str_align_lem :
      (mem : Memory) (value str n : ℕ)
      → value < 2 ^ 32
      → value < base ^ n
      → IsString (ulong_to_str_align mem value base str n) str n
        × (str_to_ulong (ulong_to_str_align mem value base str n) base str n ≡ value)
  unfolding ulong_to_str_align
  ulong_to_str_align_lem mem value str n small fits =
      aligned str n value (write_self mem (str + n) 0) (
        align_digits-IsAligned base base_low base_high str n value (write mem (str + n) 0) [] small
          fits tt)

  -- The digits that a signed value needs, and the characters left for them by its sign.
  abbrev magnitude : ℕ → ℕ
  magnitude value = if negative32 value then sub32 0 value else value

  abbrev digit_room : ℕ → ℕ → ℕ
  digit_room value n = if negative32 value then n - 1 else n

  -- `str_to_long` gives back the 32-bit signed value, as its pattern, that `long_to_str` printed, if
  -- the digits of its magnitude fit beside its sign.
  pub str_to_long-long_to_str :
      (mem : Memory) (value str n : ℕ)
      → value < 2 ^ 32
      → 0 < digit_room value n
      → magnitude value < base ^ digit_room value n
      → str_to_long (long_to_str mem value base str n) base str n ≡ value
  unfolding str_to_long long_to_str
  str_to_long-long_to_str mem value str n small pos fits = elim (Bool-cases (negative32 value)) [
    | inl neg ↦
        let room : 0 < n - 1 = subst (λ (b : Bool). 0 < (if b then n - 1 else n)) neg pos in
        let nonempty : (n == 0) ≡ false = ground arith in
        let num =
          ulong_to_str-IsNumeral base base_low base_high (write mem str b'-') (sub32 0 value)
            (str + 1) (n - 1) room (omega arith)
            (subst
              (λ (b : Bool). (if b then sub32 0 value else value) < base ^ (if b then n - 1 else n))
              neg fits) in
        let out = ulong_to_str (write mem str b'-') (sub32 0 value) base (str + 1) (n - 1) in
        let first : out str ≡ b'-' = num.before str (omega arith) ∙ write_self mem str b'-' in
        let sign : (out str == b'-') ≡ true = ground arith in
        let back = str_to_ulong-IsNumeral num in rw (neg, nonempty, sign, back) (ground arith)
    | inr plain ↦
        let room : 0 < n = subst (λ (b : Bool). 0 < (if b then n - 1 else n)) plain pos in
        let nonempty : (n == 0) ≡ false = ground arith in
        let num = ulong_to_str-IsNumeral base base_low base_high mem value str n room small (
          subst
            (λ (b : Bool). (if b then sub32 0 value else value) < base ^ (if b then n - 1 else n))
            plain fits) in
        let sign = unsigned_first _ _ str n num.text num.printed room num.ended in
        rw (plain, nonempty, sign) (str_to_ulong-IsNumeral num)
  ]
