-- ===== src/Digits/Align.antt =====
-- lib/digits.c: the zero-padded printer, the signed printer, and their round trips.
use nop.Base.{
  ℕ, zero, suc, ◌+◌, ◌-◌, ◌/◌, ◌%◌, ◌^◌, ◌≤◌, ◌<◌, ◌≡◌, ◌≢◌, refl, arith, List, ◌∷◌, ◌==◌, Memory,
  write, length, ap, ◌∙◌, inl, inr, Bool-cases, write_self,
}
use mathlib.Core.Path.{subst}
use native.Mathlib.Nat.{pow-zero, mod-lt, div-le_self}
use nop.Digits.{digits, pad, align_digits}
use nop.Digits.Parse.{parse, digit_value-digits, IsText}
use nop.Digits.Print.{div_lt_pow, parse_digit, parse_zero, IsText_same}

module _ (base : ℕ) (base_low : 2 ≤ base) (base_high : base ≤ 36) where
  -- `n` more characters before `buffer`, which stood behind them: together they read as `value`
  -- followed by `buffer`.
  pub record IsAligned (mem : Memory) (s n value : ℕ) (buffer : List ℕ) (out : Memory)
      : Type 0 where
    pub chars : List ℕ
    pub text : IsText out s chars
    pub parsed : parse base 0 chars ≡ parse base value buffer
    pub counted : length chars ≡ n + length buffer
    pub behind : (a : ℕ) → s + n ≤ a → out a ≡ mem a

  module _ (s : ℕ) where
    push_char :
        (mem : Memory) (n c : ℕ) (buffer : List ℕ)
        → c ≢ 0
        → IsText mem (s + suc n) buffer
        → IsText (write mem (s + n) c) (s + n) (c ∷ buffer)
    push_char mem n c buffer ne t = (
      write_self mem (s + n) c,
      ne,
      IsText_same buffer mem (write mem (s + n) c) (s + n + 1)
          (subst (λ p. IsText mem p buffer) (omega arith) t) λ a h k. ground arith,
    )

    pad-IsAligned :
        (n : ℕ) (mem : Memory) (buffer : List ℕ)
        → IsText mem (s + n) buffer
        → IsAligned mem s n 0 buffer (pad mem (s + n) n)
    unfolding pad
    pad-IsAligned zero mem buffer t = record {
      chars = buffer;
      text = subst (λ p. IsText mem p buffer) (omega arith) t;
      parsed = refl;
      counted = omega arith;
      behind = λ a h. refl;
    }
    pad-IsAligned (suc n) mem buffer t =
        let back : s + suc n - 1 ≡ s + n = omega arith in
        let rest =
          pad-IsAligned n (write mem (s + n) b'0') (b'0' ∷ buffer)
            (push_char mem n b'0' buffer (omega arith) t) in
        rw back (record {
          chars = rest.chars;
          text = rest.text;
          parsed = rest.parsed ∙ parse_zero base base_low base_high buffer;
          counted = omega (arith, rest.counted);
          behind = λ a h. rest.behind a (omega arith) ∙ ground arith;
        })

    pub align_digits-IsAligned :
        (n value : ℕ) (mem : Memory) (buffer : List ℕ)
        → value < 2 ^ 32
        → value < base ^ n
        → IsText mem (s + n) buffer
        → IsAligned mem s n value buffer (align_digits mem value base (s + n) n)
    unfolding align_digits
    align_digits-IsAligned zero value mem buffer small fits t =
        let empty : 0 ≡ value = omega (arith, pow-zero base) in
        record {
          chars = buffer;
          text = subst (λ p. IsText mem p buffer) (omega arith) t;
          parsed = ap (λ v. parse base v buffer) empty;
          counted = omega arith;
          behind = λ a h. refl;
        }
    align_digits-IsAligned (suc n) value mem buffer small fits t = elim (Bool-cases (value == 0)) [
      | inl done ↦
          let empty : 0 ≡ value = ground arith in
          rw (done, align_digits)
            (subst (λ v. IsAligned mem s (suc n) v buffer (pad mem (s + suc n) (suc n))) empty
              (pad-IsAligned (suc n) mem buffer t))
      | inr more ↦
          let back : s + suc n - 1 ≡ s + n = omega arith in
          let c = digits (value % base) in
          let digit =
            digit_value-digits (value % base)
              (omega (arith, mod-lt value {m = base} (omega arith))) in
          let rest =
            align_digits-IsAligned n (value / base) (write mem (s + n) c) (c ∷ buffer)
              (omega (arith, div-le_self value base)) (div_lt_pow base n value (omega arith) fits)
              (push_char mem n c buffer digit.1 t) in
          rw (more, align_digits, back)
            (record {
              chars = rest.chars;
              text = rest.text;
              parsed = rest.parsed ∙ parse_digit base base_low base_high value buffer small;
              counted = omega (arith, rest.counted);
              behind = λ a h. rest.behind a (omega arith) ∙ ground arith;
            })
    ]
