-- ===== src/Digits/Parse.antt =====
-- lib/digits.c: the parser on a list of characters, and what it reads back from memory.
use nop.Base.{
  ℕ, zero, suc, ◌+◌, ◌*◌, ◌≤◌, ◌<◌, ◌≡◌, ◌≢◌, refl, arith, Bool, true, false, ◌&&◌, not, Option,
  none, some, List, [], ◌∷◌, ◌==◌, u32, Memory, length, ap, ◌∙◌, inl, inr, Option-cases,
}
use nop.Base.Bits.{passes, passes-at}
use nop.CString.{strchr, strchr_loop, toupper}
use nop.Digits.{digits, parse_loop}

-- The value of a digit character, as `str_to_ulong` finds it.
abbrev pub digit_value : ℕ → Option ℕ
digit_value c = strchr digits 0 (toupper c)

unfoldable pub parse : ℕ → ℕ → List ℕ → ℕ
parse base value [] = value
parse base value (c ∷ cs) = elim (digit_value c) [
  | none ↦ value
  | some d ↦ parse base (u32 (u32 (value * base) + d)) cs
]

is_some_of : ℕ → Option ℕ → Bool
is_some_of d none = false
is_some_of d (some e) = e == d

digit_row : ℕ → Bool
digit_row d = is_some_of d (digit_value (digits d)) && not (digits d == 0) && not (digits d == b'-')

digit_table : passes digit_row 36 ≡ true
unfolding passes digit_row is_some_of strchr strchr_loop toupper
digit_table = refl

some_of : (d : ℕ) (o : Option ℕ) → is_some_of d o ≡ true → o ≡ some d
unfolding is_some_of
some_of d o h = ground arith

-- Each of the 36 digits is found again, and none is a terminator or a minus sign.
pub digit_value-digits :
    (d : ℕ) → d < 36 → (digit_value (digits d) ≡ some d) × (digits d ≢ 0) × (digits d ≢ b'-')
digit_value-digits d h = split (digits d) (unfold digit_row in passes-at digit_row d h digit_table)
  where
    split :
        (c : ℕ)
        → (is_some_of d (digit_value c) && not (c == 0) && not (c == b'-')) ≡ true
        → (digit_value c ≡ some d) × (c ≢ 0) × (c ≢ b'-')
    split c row = (some_of d _ (ground arith), ground arith, ground arith)

-- The characters `cs` stand from `str` on, none of them a terminator.
abbrev pub IsText : Memory → ℕ → List ℕ → Type 0
IsText mem str [] = Unit {0}
IsText mem str (c ∷ cs) = (mem str ≡ c) × (c ≢ 0) × IsText mem (str + 1) cs

-- The parser reads them all if `n` allows, and stops there for lack of `n` or at a terminator.
pub parse_loop-parse :
    (cs : List ℕ) (mem : Memory) (base str n value : ℕ)
    → IsText mem str cs
    → length cs ≤ n
    → (length cs < n → mem (str + length cs) ≡ 0)
    → parse_loop mem base str n value ≡ parse base value cs
unfolding parse_loop parse
parse_loop-parse [] mem base str zero value t fits end = refl
parse_loop-parse [] mem base str (suc n) value t fits end =
    ground (arith, end (omega arith), ap mem (at_zero str))
  where
    at_zero : (s : ℕ) → s + 0 ≡ s
    at_zero s = omega arith
parse_loop-parse (c ∷ cs) mem base str zero value t fits end = absurd (omega arith)
parse_loop-parse (c ∷ cs) mem base str (suc n) value t fits end =
    elim (Option-cases (digit_value (mem str))) [
      | inl e ↦ ground arith
      | inr (d, e) ↦ ground (
        arith,
        parse_loop-parse cs mem base (str + 1) n (u32 (u32 (value * base) + d)) t.2 (omega arith)
            (λ below. ap mem (step (length cs)) ∙ end (omega arith)),
      )
    ]
  where
    step : (k : ℕ) → str + 1 + k ≡ str + suc k
    step k = omega arith
