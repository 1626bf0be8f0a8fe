-- ===== src/CString/Compare.antt =====
-- lib/string.c: when the comparisons return 0.
use nop.Base.{ℕ, zero, suc, ◌+◌, ◌<◌, ◌≡◌, ◌≢◌, ◌↔◌, refl, arith, Memory, IsBytes, ap, ◌∙◌, sym}
use nop.Base.Int.{pos, eq_of_sub_int8}
use nop.CString.{address_space, memcmp, strcmp, strncmp}
use nop.CString.Length.{IsString, strlen_lem}

-- The first `n` bytes at `s1` and `s2` are the same.
abbrev pub SameBytes : Memory → ℕ → Memory → ℕ → ℕ → Type 0
SameBytes m1 s1 m2 s2 n = (i : ℕ) → i < n → m1 (s1 + i) ≡ m2 (s2 + i)

-- They are the same as far as the string at `s1` goes, its terminator included.
abbrev pub SameText : Memory → ℕ → Memory → ℕ → ℕ → Type 0
SameText m1 s1 m2 s2 n =
    (i : ℕ) → i < n → ((j : ℕ) → j < i → m1 (s1 + j) ≢ 0) → m1 (s1 + i) ≡ m2 (s2 + i)

here : (m : Memory) (s : ℕ) → m (s + 0) ≡ m s
here m s = ap m (omega arith)

later : (m : Memory) (s i : ℕ) → m (s + suc i) ≡ m (s + 1 + i)
later m s i = ap m (omega arith)

SameBytes-suc :
    (m1 m2 : Memory) (s1 s2 n : ℕ)
    → SameBytes m1 s1 m2 s2 (suc n) ↔ ((m1 s1 ≡ m2 s2) × SameBytes m1 (s1 + 1) m2 (s2 + 1) n)
SameBytes-suc m1 m2 s1 s2 n = (
  λ h. (
    cc (here m1 s1, here m2 s2, h 0 (omega arith)),
    λ i lt. cc (later m1 s1 i, later m2 s2 i, h (suc i) (omega arith)),
  ),
  λ (e, rest). elim [
    | zero ↦ λ lt. cc (here m1 s1, here m2 s2)
    | suc i ↦ λ lt. cc (later m1 s1 i, later m2 s2 i, rest i (omega arith))
  ],
)

module _ (m1 m2 : Memory) (b1 : IsBytes m1) (b2 : IsBytes m2) where
  memcmp-suc :
      (n s1 s2 : ℕ)
      → (memcmp m1 s1 m2 s2 (suc n) ≡ pos 0)
        ↔ ((m1 s1 ≡ m2 s2) × (memcmp m1 (s1 + 1) m2 (s2 + 1) n ≡ pos 0))
  unfolding memcmp
  memcmp-suc n s1 s2 = ground (arith, eq_of_sub_int8 (m1 s1) (m2 s2), b1 s1, b2 s2)

  -- `memcmp` returns 0 exactly when the `n` bytes are the same.
  pub memcmp-SameBytes : (n s1 s2 : ℕ) → (memcmp m1 s1 m2 s2 n ≡ pos 0) ↔ SameBytes m1 s1 m2 s2 n
  memcmp-SameBytes zero s1 s2 = (λ e i lt. absurd (omega arith), λ h. unfold memcmp in refl)
  memcmp-SameBytes (suc n) s1 s2 =
      let step = memcmp-suc n s1 s2 in
      let bytes = SameBytes-suc m1 m2 s1 s2 n in
      let rest = memcmp-SameBytes n (s1 + 1) (s2 + 1) in
      (
        λ e. let (head, tail) = step.0 e in bytes.1 (head, rest.0 tail),
        λ h. let (head, tail) = bytes.0 h in step.1 (head, rest.1 tail),
      )

  -- `strcmp` returns 0 exactly when the first string is a prefix of the second: the second may go on.
  pub strcmp_prefix :
      (s1 s2 len : ℕ)
      → IsString m1 s1 len
      → len < address_space
      → (strcmp m1 s1 m2 s2 ≡ pos 0) ↔ SameBytes m1 s1 m2 s2 len
  unfolding strcmp
  strcmp_prefix s1 s2 len s h = rw (strlen_lem m1 s1 len s h) (memcmp-SameBytes len s1 s2)

SameText-suc :
    (m1 m2 : Memory) (s1 s2 n : ℕ)
    → SameText m1 s1 m2 s2 (suc n)
      ↔ ((m1 s1 ≡ m2 s2) × (m1 s1 ≢ 0 → SameText m1 (s1 + 1) m2 (s2 + 1) n))
SameText-suc m1 m2 s1 s2 n = (
  λ h. (
    cc (here m1 s1, here m2 s2, h 0 (omega arith) (λ j lt. elim lt [ ])),
    λ ne i lt more. cc (later m1 s1 i, later m2 s2 i, h (suc i) (omega arith) (widen ne more)),
  ),
  λ (e, rest). elim [
    | zero ↦ λ lt more. cc (here m1 s1, here m2 s2)
    | suc i ↦ λ lt more. cc (
      later m1 s1 i,
      later m2 s2 i,
      rest (λ z. more 0 (omega arith) (here m1 s1 ∙ z)) i (omega arith)
          (λ j below z. more (suc j) (omega arith) (later m1 s1 j ∙ z)),
    )
  ],
)
  where
    widen :
        {i : ℕ}
        → m1 s1 ≢ 0
        → ((j : ℕ) → j < i → m1 (s1 + 1 + j) ≢ 0)
        → (j : ℕ) → j < suc i
        → m1 (s1 + j) ≢ 0
    widen ne more zero below z = ne (sym (here m1 s1) ∙ z)
    widen ne more (suc j) below z = more j (omega arith) (sym (later m1 s1 j) ∙ z)

module _ (m1 m2 : Memory) (b1 : IsBytes m1) (b2 : IsBytes m2) where
  strncmp-suc :
      (n s1 s2 : ℕ)
      → (strncmp m1 s1 m2 s2 (suc n) ≡ pos 0)
        ↔ ((m1 s1 ≡ m2 s2) × (m1 s1 ≢ 0 → strncmp m1 (s1 + 1) m2 (s2 + 1) n ≡ pos 0))
  unfolding strncmp
  strncmp-suc n s1 s2 = ground (arith, eq_of_sub_int8 (m1 s1) (m2 s2), b1 s1, b2 s2)

  -- `strncmp` returns 0 exactly when the first `n` bytes are the same up to the end of the first
  -- string, its terminator included.
  pub strncmp-SameText : (n s1 s2 : ℕ) → (strncmp m1 s1 m2 s2 n ≡ pos 0) ↔ SameText m1 s1 m2 s2 n
  strncmp-SameText zero s1 s2 = (λ e i lt. absurd (omega arith), λ h. unfold strncmp in refl)
  strncmp-SameText (suc n) s1 s2 =
      let step = strncmp-suc n s1 s2 in
      let text = SameText-suc m1 m2 s1 s2 n in
      let rest = strncmp-SameText n (s1 + 1) (s2 + 1) in
      (
        λ e. let (head, tail) = step.0 e in text.1 (head, λ ne. rest.0 (tail ne)),
        λ h. let (head, tail) = text.0 h in step.1 (head, λ ne. rest.1 (tail ne)),
      )
