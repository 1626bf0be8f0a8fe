-- ===== src/Digits/Print.antt =====
-- lib/digits.c: what `ulong_to_str` writes, and that `str_to_ulong` reads it back.
use nop.Base.{
  ℕ, zero, suc, ◌+◌, ◌-◌, ◌*◌, ◌/◌, ◌%◌, ◌^◌, ◌≤◌, ◌<◌, ◌≡◌, ◌≢◌, refl, arith, ◌&&◌, not, some,
  List, [], ◌∷◌, ◌==◌, if◌then◌else◌, u32, Memory, write, length, ap, ◌∙◌, inl, inr, Bool-cases,
}
use native.Mathlib.Nat.{
  pow-suc, div-lt_iff_lt-mul, div-add-mod', mod-lt, pow-zero, div-le_self, one-le-pow,
}
use nop.Digits.{digits, collect, put_all, put_digits, ulong_to_str, str_to_ulong}
use nop.Digits.Parse.{parse, digit_value, digit_value-digits, IsText, parse_loop-parse}

-- No character is a terminator or a minus sign.
abbrev pub Printed : List ℕ → Type 0
Printed [] = Unit {0}
Printed (c ∷ cs) = (c ≢ 0) × (c ≢ b'-') × Printed cs

pub div_lt_pow : (base n value : ℕ) → 0 < base → value < base ^ suc n → value / base < base ^ n
div_lt_pow base n value pos h = (div-lt_iff_lt-mul pos).1 (rw (← pow-suc base n) h)

pub div_mod : (base value : ℕ) → value / base * base + value % base ≡ value
div_mod base value = div-add-mod' value base

module _ (base : ℕ) (base_low : 2 ≤ base) (base_high : base ≤ 36) where
  pub parse_digit :
      (value : ℕ) (buffer : List ℕ)
      → value < 2 ^ 32
      → parse base (value / base) (digits (value % base) ∷ buffer) ≡ parse base value buffer
  unfolding parse
  parse_digit value buffer small =
      let digit : value % base < 36 = omega (arith, mod-lt value {m = base} (omega arith)) in
      let whole = div-add-mod' value base in
      let low : u32 (value / base * base) ≡ value / base * base = omega arith in
      let all : u32 (value / base * base + value % base) ≡ value = omega arith in
      let found = (digit_value-digits (value % base) digit).0 in rw (found, low, all, parse) refl

  record IsCollected (n value : ℕ) (buffer : List ℕ) (out : List ℕ × ℕ) : Type 0 where
    parsed : parse base 0 out.0 ≡ parse base value buffer
    printed : Printed out.0
    counted : length out.0 + out.1 ≡ length buffer + n

  collect-IsCollected :
      (n value : ℕ) (buffer : List ℕ)
      → value < 2 ^ 32
      → value < base ^ n
      → Printed buffer
      → IsCollected n value buffer (collect base n value buffer)
  unfolding collect
  collect-IsCollected zero value buffer small fits printed =
      let empty : 0 ≡ value = omega (arith, pow-zero base) in
      record { parsed = ap (λ v. parse base v buffer) empty; printed = printed; counted = refl }
  collect-IsCollected (suc n) value buffer small fits printed = elim (Bool-cases (value == 0)) [
    | inl done ↦
        let empty : 0 ≡ value = ground arith in
        rw (done, collect)
          (record {
            parsed = ap (λ v. parse base v buffer) empty;
            printed = printed;
            counted = refl;
          })
    | inr more ↦
        let digit =
          digit_value-digits (value % base)
            (omega (arith, mod-lt value {m = base} (omega arith))) in
        let rest =
          collect-IsCollected n (value / base) (digits (value % base) ∷ buffer)
            (omega (arith, div-le_self value base)) (div_lt_pow base n value (omega arith) fits)
            (digit.1, digit.2, printed) in
        rw (more, collect)
          (record {
            parsed = rest.parsed ∙ parse_digit value buffer small;
            printed = rest.printed;
            counted = omega (arith, rest.counted);
          })
  ]

-- What `put_all` and a terminator behind it leave in memory.
pub record IsWritten (mem : Memory) (str : ℕ) (cs : List ℕ) (out : Memory × ℕ) : Type 0 where
  pub text : IsText out.0 str cs
  pub moved : out.1 ≡ str + length cs
  pub before : (a : ℕ) → a < str → out.0 a ≡ mem a

pub IsText_same :
    (cs : List ℕ) (mem mem' : Memory) (str : ℕ)
    → IsText mem str cs
    → ((a : ℕ) → str ≤ a → a < str + length cs → mem' a ≡ mem a)
    → IsText mem' str cs
IsText_same [] mem mem' str t same = tt
IsText_same (c ∷ cs) mem mem' str t same = (
  same str (omega arith) (omega arith) ∙ t.0,
  t.1,
  IsText_same cs mem mem' (str + 1) t.2 λ a h k. same a (omega arith) (omega arith),
)

put_all-IsWritten :
    (cs : List ℕ) (mem : Memory) (str : ℕ) → Printed cs → IsWritten mem str cs (put_all mem str cs)
unfolding put_all
put_all-IsWritten [] mem str printed = record {
  text = tt;
  moved = omega arith;
  before = λ a h. refl;
}
put_all-IsWritten (c ∷ cs) mem str printed =
    let rest = put_all-IsWritten cs (write mem str c) (str + 1) printed.2 in
    record {
      text = (rest.before str (omega arith) ∙ ground arith, printed.0, rest.text);
      moved = omega (arith, rest.moved);
      before = λ a h. rest.before a (omega arith) ∙ ground arith;
    }

-- The characters that `ulong_to_str` writes.
unfoldable pub numeral : ℕ → ℕ → ℕ → List ℕ
numeral base n value =
    if not (n == 0) && value == 0
    then b'0' ∷ (collect base (n - 1) value []).0
    else (collect base n value []).0

-- What the printers leave: `value` in digits, and a terminator behind them if there is room.
pub record IsNumeral (mem : Memory) (value base str n : ℕ) (chars : List ℕ) (out : Memory)
    : Type 0 where
  pub text : IsText out str chars
  pub printed : Printed chars
  pub parsed : parse base 0 chars ≡ value
  pub fits : length chars ≤ n
  pub ended : length chars < n → out (str + length chars) ≡ 0
  pub before : (a : ℕ) → a < str → out a ≡ mem a

terminate-IsNumeral :
    (mem : Memory) (value base str n left : ℕ) (cs : List ℕ) (out : Memory × ℕ)
    → IsWritten mem str cs out
    → Printed cs
    → parse base 0 cs ≡ value
    → length cs + left ≡ n
    → IsNumeral mem value base str n cs (if left == 0 then out.0 else write out.0 out.1 0)
terminate-IsNumeral mem value base str n left cs out w printed parsed counted =
    elim (Bool-cases (left == 0)) [
      | inl full ↦ rw full (record {
        text = w.text;
        printed = printed;
        parsed = parsed;
        fits = omega arith;
        ended = λ h. absurd (ground arith);
        before = w.before;
      })
      | inr room ↦ rw room (record {
        text =
            IsText_same cs out.0 (write out.0 out.1 0) str w.text λ a h k. ground (arith, w.moved);
        printed = printed;
        parsed = parsed;
        fits = omega arith;
        ended = λ h. ground (arith, w.moved);
        before = λ a h. ground (arith, w.moved, w.before a);
      })
    ]

module _ (base : ℕ) (base_low : 2 ≤ base) (base_high : base ≤ 36) where
  put_digits-IsNumeral :
      (mem : Memory) (value str n : ℕ)
      → value < 2 ^ 32
      → value < base ^ n
      → IsNumeral mem value base str n (collect base n value []).0 (put_digits mem value base str n)
  unfolding put_digits
  put_digits-IsNumeral mem value str n small room =
      let all = collect-IsCollected base base_low base_high n value [] small room tt in
      let out = put_all-IsWritten (collect base n value []).0 mem str all.printed in
      terminate-IsNumeral mem value base str n _ _ _ out all.printed
        (all.parsed ∙ unfold parse in refl) (omega (arith, all.counted))

  pub parse_zero : (cs : List ℕ) → parse base 0 (b'0' ∷ cs) ≡ parse base 0 cs
  unfolding parse
  parse_zero cs =
      let zero_digit : digit_value b'0' ≡ some 0 = (digit_value-digits 0 (omega arith)).0 in
      let none_before : u32 (u32 (0 * base) + 0) ≡ 0 = omega arith in
      rw (zero_digit, none_before, parse) refl

  -- `ulong_to_str` prints any 32-bit value that `n` digits of the base hold, zero included.
  pub ulong_to_str-IsNumeral :
      (mem : Memory) (value str n : ℕ)
      → 0 < n
      → value < 2 ^ 32
      → value < base ^ n
      → IsNumeral mem value base str n (numeral base n value) (ulong_to_str mem value base str n)
  unfolding ulong_to_str numeral
  ulong_to_str-IsNumeral mem value str n pos small room =
      elim (Bool-cases (not (n == 0) && value == 0)) [
        | inr digits_only ↦ rw digits_only (put_digits-IsNumeral mem value str n small room)
        | inl zero_digit ↦
            let empty : value ≡ 0 = ground arith in
            let out = put_digits (write mem str b'0') value base (str + 1) (n - 1) in
            let rest =
              put_digits-IsNumeral (write mem str b'0') value (str + 1) (n - 1) small
                (rw empty (one-le-pow (n - 1) base (omega arith))) in
            rw zero_digit (record {
              text = (rest.before str (omega arith) ∙ ground arith, omega arith, rest.text);
              printed = (omega arith, omega arith, rest.printed);
              parsed = parse_zero (collect base (n - 1) value []).0 ∙ rest.parsed;
              fits = omega (arith, rest.fits);
              ended = λ h. ap out (omega arith) ∙ rest.ended (omega arith);
              before = λ a h. rest.before a (omega arith) ∙ ground arith;
            })
      ]

-- A numeral in memory is read back, whatever follows it, if `n` is at most what the parser may read.
pub str_to_ulong-IsNumeral :
    {mem out : Memory} {value base str n : ℕ} {chars : List ℕ}
    → IsNumeral mem value base str n chars out
    → str_to_ulong out base str n ≡ value
unfolding str_to_ulong
str_to_ulong-IsNumeral {out} {base} {str} {n} {chars} num =
    parse_loop-parse chars out base str n 0 num.text num.fits num.ended ∙ num.parsed
