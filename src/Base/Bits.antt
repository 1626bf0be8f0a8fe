-- ===== src/Base/Bits.antt =====
-- The native `bit_and` and `bit_or` at variables: equations for the lowest digit, disjoint fields
-- joined by `|`, and tables over the bytes.
use Prim.Native.Nat.{
  ℕ, zero, suc, ◌+◌, ◌*◌, ◌/◌, ◌%◌, ◌^◌, ◌≤◌, ◌<◌, min, max, digits, bit_or, bit_or-bitwise,
  bit_and, bit_and-bitwise,
}
use mathlib.Core.Path.{◌≡◌, refl, sym, ap, ap₂, ◌∙◌}
use mathlib.Core.Bool.{Bool, true, ◌&&◌}
use native.Mathlib.Nat.{pow-suc, mul_comm, div-div-eq-div-mul}
use native.Mathlib.Omega.{arith}
use nop.Base.Words.{◌<<<◌}

-- A Boolean test of the numbers under a limit, run one by one.
unfoldable pub passes : (ℕ → Bool) → ℕ → Bool
passes test zero = true
passes test (suc limit) = test limit && passes test limit

pub passes-at :
    {limit : ℕ} (test : ℕ → Bool) (v : ℕ) → v < limit → passes test limit ≡ true → test v ≡ true
unfolding passes
passes-at {limit = zero} test v under run = absurd (omega arith)
passes-at {limit = suc limit} test v under run = ground (arith, passes-at {limit = limit} test v)

-- What `bit_or` stands for, with the fuel as last argument.
abbrev or_within : ℕ → ℕ → ℕ → ℕ
or_within a b fuel = digits (λ rest. rest) max fuel a b

or_within-zero : (b fuel : ℕ) → or_within 0 b fuel ≡ b
or_within-zero b zero = refl
or_within-zero b (suc fuel) = refl

or_within_enough : (a b k l : ℕ) → a ≤ k → a ≤ l → or_within a b k ≡ or_within a b l
or_within_enough zero b k l hk hl = rw (or_within-zero b k, or_within-zero b l) refl
or_within_enough (suc a) b zero l hk hl = absurd (omega arith)
or_within_enough (suc a) b (suc k) zero hk hl = absurd (omega arith)
or_within_enough (suc a) b (suc k) (suc l) hk hl =
    let halves = or_within_enough (suc a / 2) (b / 2) k l in
    omega (arith, halves (omega arith) (omega arith))

zero-bit_or : (b : ℕ) → bit_or 0 b ≡ b
zero-bit_or b = bit_or-bitwise 0 b

bit_or_step : (a b : ℕ) → bit_or a b ≡ bit_or (a / 2) (b / 2) * 2 + max (a % 2) (b % 2)
bit_or_step zero b = omega (arith, zero-bit_or b, zero-bit_or (b / 2))
bit_or_step (suc a) b = omega (
  arith,
  bit_or-bitwise (suc a) b,
  bit_or-bitwise (suc a / 2) (b / 2),
  or_within_enough (suc a / 2) (b / 2) a (suc a / 2) (omega arith) (omega arith),
)

bit_or-zero_fuel : (n a : ℕ) → a ≤ n → bit_or a 0 ≡ a
bit_or-zero_fuel n zero h = refl
bit_or-zero_fuel zero (suc a) h = absurd (omega arith)
bit_or-zero_fuel (suc n) (suc a) h =
    omega (arith, bit_or_step (suc a) 0, bit_or-zero_fuel n (suc a / 2) (omega arith))

double_field : (q k : ℕ) → q <<< suc k ≡ 2 * (q <<< k)
double_field q k = omega (arith, ap (λ (t : ℕ). q * t) (pow-suc 2 k))

-- A low field joined to a high one is their sum.
pub low_or_high : (k q r : ℕ) → r < 2 ^ k → bit_or r (q <<< k) ≡ r + q * 2 ^ k
low_or_high zero q zero fits = omega (arith, zero-bit_or (q <<< 0))
low_or_high zero q (suc r) fits = absurd (omega arith)
low_or_high (suc k) q r fits =
    ground
      (arith, bit_or_step r (q <<< suc k), double_field q k, pow-suc 2 k, low_or_high k q (r / 2))

-- A high field joined to a low one is their sum.
pub high_or_low : (k q r : ℕ) → r < 2 ^ k → bit_or (q <<< k) r ≡ q * 2 ^ k + r
high_or_low zero q zero fits = omega (arith, bit_or-zero_fuel (q <<< 0) (q <<< 0))
high_or_low zero q (suc r) fits = absurd (omega arith)
high_or_low (suc k) q r fits =
    ground
      (arith, bit_or_step (q <<< suc k) r, double_field q k, pow-suc 2 k, high_or_low k q (r / 2))

-- The same, with the fields given by equations.
pub join_low :
    (k q r : ℕ) {x y : ℕ} → x ≡ r → y ≡ q * 2 ^ k → r < 2 ^ k → bit_or x y ≡ r + q * 2 ^ k
join_low k q r e f h = ap₂ bit_or e f ∙ low_or_high k q r h

pub join_high :
    (k q r : ℕ) {x y : ℕ} → x ≡ q * 2 ^ k → y ≡ r → r < 2 ^ k → bit_or x y ≡ q * 2 ^ k + r
join_high k q r e f h = ap₂ bit_or e f ∙ high_or_low k q r h

and_within-zero : (fuel a : ℕ) → digits (λ rest. zero) min fuel a 0 ≡ 0
and_within-zero zero a = refl
and_within-zero (suc fuel) zero = refl
and_within-zero (suc fuel) (suc a) = omega (arith, and_within-zero fuel (suc a / 2))

-- The lowest bit.
pub bit_and-one : (a : ℕ) → bit_and a 1 ≡ a % 2
bit_and-one zero = bit_and-bitwise 0 1
bit_and-one (suc a) = omega (arith, bit_and-bitwise (suc a) 1, and_within-zero a (suc a / 2))

pub halve : (a k : ℕ) → a / 2 ^ suc k ≡ a / 2 / 2 ^ k
halve a k =
    ap (λ (m : ℕ). a / m) (pow-suc 2 k ∙ mul_comm (2 ^ k) 2) ∙ sym (div-div-eq-div-mul a 2 (2 ^ k))

-- A bit is in `a | b` if it is in one of them.
pub bit_or-bit : (k a b : ℕ) → bit_or a b / 2 ^ k % 2 ≡ max (a / 2 ^ k % 2) (b / 2 ^ k % 2)
bit_or-bit zero a b = omega (arith, bit_or_step a b)
bit_or-bit (suc k) a b =
    let ih = bit_or-bit k (a / 2) (b / 2) in
    let half : bit_or a b / 2 ≡ bit_or (a / 2) (b / 2) = omega (arith, bit_or_step a b) in
    rw (halve a k, halve b k, halve (bit_or a b) k, half) ih

pub zero-bit_and : (b : ℕ) → bit_and 0 b ≡ 0
zero-bit_and b = bit_and-bitwise 0 b
