-- ===== src/Idt/Names.antt =====
-- nop/arch/i386/tasks/idt.c: the names of interrupts are the same exactly for the same number.
use nop.Base.{
  ℕ, zero, suc, ◌+◌, ◌^◌, ◌<◌, ◌≡◌, ◌≢◌, refl, ap, sym, ◌∙◌, arith, false, ◌&&◌, inl, inr,
  Bool-cases, List, [], ◌∷◌, ◌++◌, length, ◌==◌, Memory, IsBytes, of_list, codes,
}
use nop.Base.Int.{ℤ, pos, negsuc, is_zero}
use nop.CString.{strncmp, memcpy_from}
use nop.CString.Compare.{SameText, strncmp-SameText}
use mathlib.Core.Path.{subst}
use nop.Digits.Parse.{IsText}
use nop.Digits.Print.{numeral, ulong_to_str-IsNumeral}
use nop.Digits.Decimal.{numeral-length, numeral-injective, ulong_to_str-IsBytes}
use nop.Event.{Handle, listens}
use nop.Idt.{interrupt_name}

-- The characters `cs` and a terminator stand from `s` on.
pub record IsWord (m : Memory) (s : ℕ) (cs : List ℕ) : Type 0 where
  pub text : IsText m s cs
  pub ended : m (s + length cs) ≡ 0

IsWord-suc : {m : Memory} {s c : ℕ} {cs : List ℕ} → IsWord m s (c ∷ cs) → IsWord m (s + 1) cs
IsWord-suc {m} w = record { text = w.text.2; ended = ap m (omega arith) ∙ w.ended }

SameText-next :
    (m1 m2 : Memory) (s1 s2 n : ℕ)
    → m1 s1 ≢ 0
    → SameText m1 s1 m2 s2 (suc n)
    → SameText m1 (s1 + 1) m2 (s2 + 1) n
SameText-next m1 m2 s1 s2 n ne h i lt before =
    ap m1 (omega arith)
    ∙ h (suc i) (omega arith) (elim [
      | zero ↦ λ below e. ne (ap m1 (omega arith) ∙ e)
      | suc j ↦ λ below e. before j (omega arith) (ap m1 (omega arith) ∙ e)
    ])
    ∙ ap m2 (omega arith)

-- Words that compare the same are the same.
words_same :
    (cs ds : List ℕ) (m1 m2 : Memory) (s1 s2 n : ℕ)
    → IsWord m1 s1 cs
    → IsWord m2 s2 ds
    → length cs < n
    → SameText m1 s1 m2 s2 n
    → cs ≡ ds
words_same cs ds m1 m2 s1 s2 zero a b lt h = absurd (omega arith)
words_same [] [] m1 m2 s1 s2 (suc n) a b lt h = refl
words_same [] (d ∷ ds) m1 m2 s1 s2 (suc n) a b lt h = absurd (
    b.text.1 (
      sym b.text.0
      ∙ ap m2 (omega arith)
      ∙ sym (h 0 (omega arith) (λ j below. absurd (omega arith)))
      ∙ a.ended))
words_same (c ∷ cs) [] m1 m2 s1 s2 (suc n) a b lt h = absurd (
    a.text.1 (
      sym a.text.0
      ∙ ap m1 (omega arith)
      ∙ h 0 (omega arith) (λ j below. absurd (omega arith))
      ∙ b.ended))
words_same (c ∷ cs) (d ∷ ds) m1 m2 s1 s2 (suc n) a b lt h =
    let first : c ≡ d =
      sym a.text.0
      ∙ ap m1 (omega arith)
      ∙ h 0 (omega arith) (λ j below. absurd (omega arith))
      ∙ ap m2 (omega arith)
      ∙ b.text.0 in
    let rest =
      words_same cs ds m1 m2 (s1 + 1) (s2 + 1) n (IsWord-suc a) (IsWord-suc b) (omega arith)
        (SameText-next m1 m2 s1 s2 n (λ e. a.text.1 (sym a.text.0 ∙ e)) h) in
    cc (first, rest)

-- The same word compares the same.
same_words :
    (cs : List ℕ) (m1 m2 : Memory) (s1 s2 n : ℕ)
    → IsWord m1 s1 cs
    → IsWord m2 s2 cs
    → SameText m1 s1 m2 s2 n
same_words [] m1 m2 s1 s2 n a b zero lt before = a.ended ∙ sym b.ended
same_words [] m1 m2 s1 s2 n a b (suc i) lt before = absurd (before 0 (omega arith) a.ended)
same_words (c ∷ cs) m1 m2 s1 s2 n a b zero lt before =
    ap m1 (omega arith) ∙ a.text.0 ∙ sym b.text.0 ∙ ap m2 (omega arith)
same_words (c ∷ cs) m1 m2 s1 s2 n a b (suc i) lt before =
    ap m1 (omega arith)
    ∙ same_words cs m1 m2 (s1 + 1) (s2 + 1) n (IsWord-suc a) (IsWord-suc b) i (omega arith)
        (λ j below e. before (suc j) (omega arith) (ap m1 (omega arith) ∙ e))
    ∙ ap m2 (omega arith)

interrupt_name-IsWord :
    (junk : Memory) (id : ℕ)
    → id < 2 ^ 32
    → IsWord (interrupt_name junk id) 0 (codes "int" ++ numeral 10 12 id)
unfolding interrupt_name memcpy_from
interrupt_name-IsWord junk id small =
    let start = memcpy_from (of_list (codes "int")) junk 0 0 4 in
    let n =
      ulong_to_str-IsNumeral 10 (omega arith) (omega arith) start id 3 12 (omega arith) small
        (omega arith) in
    let len = numeral-length id small in
    record {
      text = (
        n.before 0 (omega arith),
        omega arith,
        (n.before 1 (omega arith), omega arith, (n.before 2 (omega arith), omega arith, n.text)),
      );
      ended = ap (interrupt_name junk id) (omega arith) ∙ n.ended len;
    }

interrupt_name-IsBytes : (junk : Memory) (id : ℕ) → IsBytes junk → IsBytes (interrupt_name junk id)
unfolding interrupt_name memcpy_from
interrupt_name-IsBytes junk id bytes =
    ulong_to_str-IsBytes (memcpy_from (of_list (codes "int")) junk 0 0 4) id 3 12
      (λ a. ground (arith, bytes a))

names_differ :
    (junk junk' : Memory) (n id : ℕ)
    → n < 2 ^ 32
    → id < 2 ^ 32
    → n ≢ id
    → SameText (interrupt_name junk n) 0 (interrupt_name junk' id) 0 15
    → ⊥
names_differ junk junk' n id low high ne same =
    let len = numeral-length n low in
    let words =
      words_same (codes "int" ++ numeral 10 12 n) (codes "int" ++ numeral 10 12 id)
        (interrupt_name junk n) (interrupt_name junk' id) 0 0 15 (interrupt_name-IsWord junk n low)
        (interrupt_name-IsWord junk' id high) (omega (arith, len)) same in
    ne (numeral-injective n id low high (cc words))

nonzero_test : (z : ℤ) → z ≢ pos 0 → is_zero z ≡ false
nonzero_test (pos n) ne = grind arith
nonzero_test (negsuc n) ne = refl

-- A handle with the name of an interrupt listens, if it is in use, to that interrupt and no other.
pub listens-interrupt_name :
    (h : Handle) (junk junk' : Memory) (n id : ℕ)
    → IsBytes junk
    → IsBytes junk'
    → n < 2 ^ 32
    → id < 2 ^ 32
    → h.event_name ≡ interrupt_name junk n
    → listens (interrupt_name junk' id) h ≡ (h.free == 0 && n == id)
unfolding listens
listens-interrupt_name h junk junk' n id bytes bytes' low high e =
    let name = interrupt_name junk n in
    let name' = interrupt_name junk' id in
    let same =
      strncmp-SameText name name' (interrupt_name-IsBytes junk n bytes)
        (interrupt_name-IsBytes junk' id bytes') 15 0 0 in
    let test : is_zero (strncmp name 0 name' 0 15) ≡ (n == id) = elim (Bool-cases (n == id)) [
      | inl eq ↦
          let n_id : id ≡ n = ground arith in
          let b =
            subst (λ (k : ℕ). IsWord name' 0 (codes "int" ++ numeral 10 12 k)) n_id
              (interrupt_name-IsWord junk' id high) in
          rw
            (
              same.1 (
                  same_words (codes "int" ++ numeral 10 12 n) name name' 0 0 15
                    (interrupt_name-IsWord junk n low) b),
              eq,
            )
            refl
      | inr ne ↦ rw ne (
          nonzero_test (strncmp name 0 name' 0 15)
            (λ z. names_differ junk junk' n id low high (λ k. absurd (ground arith)) (same.0 z)))
    ] in
    rw (e, test) refl
