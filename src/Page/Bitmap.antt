-- ===== src/Page/Bitmap.antt =====
-- nop/page.c: one bit of the page bitmap, set and read back.
use nop.Base.{
  ℕ, ◌+◌, ◌*◌, ◌/◌, ◌%◌, ◌<◌, ◌≡◌, refl, inl, inr, arith, bit_and, bit_or, Bool, true, false, not,
  ◌&&◌, ◌==◌, if◌then◌else◌, Bool-cases, u8, not32, ◌<<<◌, ◌>>>◌, Memory, IsBytes, write,
}
use mathlib.Core.Path.{subst₃}
use nop.Base.Bits.{passes, passes-at}
use nop.Page.{is_used, set_page}

-- Bit `k` of byte `b`.
abbrev bit_of : ℕ → ℕ → Bool
bit_of b k = not (bit_and b (1 <<< k) == 0)

abbrev same : Bool → Bool → Bool
same true b = b
same false b = not b

and_true : (a b : Bool) → (a && b) ≡ true → (a ≡ true) × (b ≡ true)
and_true a b h = ground arith

same→eq : (a b : Bool) → same a b ≡ true → a ≡ b
same→eq a b h = ground arith

-- Bit `k` of byte `b` set and cleared, seen at bit `j`.
set_cell : ℕ → ℕ → ℕ → Bool
set_cell b k j =
    same (bit_of (u8 (bit_or b (1 <<< k))) j) (if k == j then true else bit_of b j)
    && same (bit_of (u8 (bit_and b (not32 (1 <<< k)))) j) (if k == j then false else bit_of b j)

set_table : passes (λ x. set_cell (x / 64) (x / 8 % 8) (x % 8)) (256 * 64) ≡ true
unfolding passes set_cell
set_table = refl

byte_row : ℕ → Bool
byte_row j = bit_of 0xff j && not (bit_of 0x00 j)

byte_table : passes byte_row 8 ≡ true
unfolding passes byte_row
byte_table = refl

set_cell-true : (b k j : ℕ) → b < 256 → k < 8 → j < 8 → set_cell b k j ≡ true
set_cell-true b k j hb hk hj =
    let x = b * 64 + k * 8 + j in
    let eb : x / 64 ≡ b = omega arith in
    let ek : x / 8 % 8 ≡ k = omega arith in
    let ej : x % 8 ≡ j = omega arith in
    let cell = λ (b : ℕ) (k : ℕ) (j : ℕ). set_cell b k j ≡ true in
    subst₃ cell eb ek ej (passes-at _ x (omega arith) set_table)

set_bit :
    (b k j : ℕ)
    → b < 256
    → k < 8
    → j < 8
    → (bit_of (u8 (bit_or b (1 <<< k))) j ≡ (if k == j then true else bit_of b j))
      × (bit_of (u8 (bit_and b (not32 (1 <<< k)))) j ≡ (if k == j then false else bit_of b j))
unfolding set_cell
set_bit b k j hb hk hj =
    let h = and_true _ _ (set_cell-true b k j hb hk hj) in (same→eq _ _ h.0, same→eq _ _ h.1)

-- The write of one page changes that page's bit, as `value` says, and no other.
pub is_used-set_page :
    (bm : Memory) (p value q : ℕ)
    → IsBytes bm
    → is_used (set_page bm p value) q ≡ (if p == q then not (value == 0) else is_used bm q)
unfolding is_used set_page
is_used-set_page bm p value q bytes = elim (Bool-cases ((p >>> 3) == (q >>> 3))) [
  | inl e ↦ ground (arith, set_bit (bm (q >>> 3)) (p % 8) (q % 8), bytes (q >>> 3))
  | inr e ↦ ground arith
]

pub set_page-IsBytes : (bm : Memory) (p value : ℕ) → IsBytes bm → IsBytes (set_page bm p value)
unfolding set_page
set_page-IsBytes bm p value bytes a = ground (arith, bytes a)

abbrev pub filler : ℕ → ℕ
filler value = if value == 0 then 0x00 else 0xff

byte_bits : (j : ℕ) → j < 8 → byte_row j ≡ true
byte_bits j h = passes-at byte_row j h byte_table

filler_bit : (value j : ℕ) → j < 8 → bit_of (filler value) j ≡ not (value == 0)
unfolding byte_row
filler_bit value j h = ground (arith, byte_bits j h)

-- A byte write of the third loop changes the eight pages of that byte and no other.
pub is_used-write :
    (bm : Memory) (a value q : ℕ)
    → is_used (write bm a (filler value)) q
      ≡ (if a == (q >>> 3) then not (value == 0) else is_used bm q)
unfolding is_used
is_used-write bm a value q = elim (Bool-cases (a == (q >>> 3))) [
  | inl e ↦ rw e (filler_bit value (q % 8) (omega arith))
  | inr e ↦ rw e refl
]
