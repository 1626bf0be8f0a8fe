-- ===== src/Hba/Slots.antt =====
-- nop/tasks/ahci.c: ahci_find_slot finds the first free slot.
use nop.Base.{
  ℕ, zero, suc, ◌+◌, ◌/◌, ◌%◌, ◌^◌, ◌<◌, ◌≡◌, ap, sym, ◌∙◌, arith, Bool, true, false, inl, inr,
  Bool-cases, bit_and, bit_or, not, ◌||◌, Option, none, some, ◌==◌, ◌>>>◌,
}
use mathlib.Core.Path.{subst}
use nop.Base.Bits.{bit_and-one, halve, bit_or-bit}
use nop.Hba.{Hba, sact, ci, find_slot_from, ahci_find_slot}

-- The slot `i` has its bit in the word.
abbrev pub has_bit : ℕ → ℕ → Bool
has_bit slots i = not (slots / 2 ^ i % 2 == 0)

-- The first of the `left` slots from `i` on whose bit is not in the word, whose bit 0 is that of `i`.
pub data IsFirstFree (slots left i : ℕ) : Option ℕ → Type 0 where
  first :
      (k : ℕ)
      → k < left
      → has_bit slots k ≡ false
      → ((j : ℕ) → j < k → has_bit slots j ≡ true)
      → IsFirstFree slots left i (some (i + k))
  full : ((j : ℕ) → j < left → has_bit slots j ≡ true) → IsFirstFree slots left i none

lowest : (slots : ℕ) → (bit_and slots 1 == 0) ≡ not (has_bit slots 0)
lowest slots = ground (arith, bit_and-one slots)

later : (slots k : ℕ) → has_bit slots (suc k) ≡ has_bit (slots >>> 1) k
later slots k = ap (λ (m : ℕ). not (m % 2 == 0)) (halve slots k)

next_free :
    (slots left i : ℕ) {o : Option ℕ}
    → has_bit slots 0 ≡ true
    → IsFirstFree (slots >>> 1) left (i + 1) o
    → IsFirstFree slots (suc left) i o
next_free slots left i taken (first k lt free before) =
    subst (λ (j : ℕ). IsFirstFree slots (suc left) i (some j)) (omega arith)
      (first (suc k) (omega arith) (later slots k ∙ free)
        (elim [ zero ↦ λ below. taken | suc j ↦ λ below. later slots j ∙ before j (omega arith) ]))
next_free slots left i taken (full all) =
    full (elim [ zero ↦ λ below. taken | suc j ↦ λ below. later slots j ∙ all j (omega arith) ])

find_slot_from-IsFirstFree :
    (left i slots : ℕ) → IsFirstFree slots left i (find_slot_from left i slots)
unfolding find_slot_from
find_slot_from-IsFirstFree zero i slots = full (λ j lt. absurd (omega arith))
find_slot_from-IsFirstFree (suc left) i slots = elim (Bool-cases (bit_and slots 1 == 0)) [
  | inl free ↦
      rw (free, find_slot_from)
        (subst (λ (j : ℕ). IsFirstFree slots (suc left) i (some j)) (omega arith)
          (first 0 (omega arith) (ground (arith, lowest slots)) (λ j lt. absurd (omega arith))))
  | inr taken ↦
      rw (taken, find_slot_from)
        (next_free slots left i (ground (arith, lowest slots))
          (find_slot_from-IsFirstFree left (i + 1) (slots >>> 1)))
]

-- A slot is taken if its bit is in SACT or in CI, as they are read, one behind the other.
unfoldable pub is_taken : {W : Type 0} → Hba W → W → ℕ → Bool
is_taken hba w k =
    let (w1, sact_now) = hba.get sact w in has_bit sact_now k || has_bit (hba.get ci w1).1 k

-- What ahci_find_slot answers: the first of the 32 slots that is not taken, or none if all are.
pub data IsFound {W : Type 0} (hba : Hba W) (w : W) : Option ℕ → Type 0 where
  slot :
      (k : ℕ)
      → k < 32
      → is_taken hba w k ≡ false
      → ((j : ℕ) → j < k → is_taken hba w j ≡ true)
      → IsFound hba w (some k)
  none_free : ((j : ℕ) → j < 32 → is_taken hba w j ≡ true) → IsFound hba w none

both_words : (a b k : ℕ) → has_bit (bit_or a b) k ≡ (has_bit a k || has_bit b k)
both_words a b k = ground (arith, bit_or-bit k a b)

IsFirstFree-IsFound :
    {W : Type 0} (hba : Hba W) (w : W) {o : Option ℕ} {word : ℕ}
    → ((k : ℕ) → has_bit word k ≡ is_taken hba w k)
    → IsFirstFree word 32 0 o
    → IsFound hba w o
IsFirstFree-IsFound hba w bits (first k lt free before) =
    subst (λ (j : ℕ). IsFound hba w (some j)) (omega arith)
      (slot k lt (sym (bits k) ∙ free) (λ j below. sym (bits j) ∙ before j below))
IsFirstFree-IsFound hba w bits (full all) = none_free (λ j below. sym (bits j) ∙ all j below)

-- ahci_find_slot answers the first of the 32 slots whose bit is neither in SACT nor in CI, and none exactly
-- if there is no such slot.
pub ahci_find_slot-IsFound :
    {W : Type 0} (hba : Hba W) (w : W) → IsFound hba w (ahci_find_slot hba w).1
unfolding ahci_find_slot is_taken
ahci_find_slot-IsFound hba w =
    let (w1, sact_now) = hba.get sact w in
    let ci_now = (hba.get ci w1).1 in
    IsFirstFree-IsFound hba w (both_words sact_now ci_now)
      (find_slot_from-IsFirstFree 32 0 (bit_or sact_now ci_now))
