-- ===== src/CString/Find.antt =====
-- lib/string.c: what `strchr` and `strchrnul` find, and the case conversions of lib/ctype.c.
use nop.Base.{
  ℕ, zero, suc, ◌+◌, ◌≤◌, ◌<◌, ◌≡◌, ◌≢◌, refl, ◌⊎◌, arith, ◌==◌, Memory, Bool-cases, inl, inr, ap,
  Option, none, some,
}
use mathlib.Core.Path.{subst}
use nop.CString.{address_space, strlen, strchr_loop, strchr, strchrnul, isdigit, toupper, tolower}
use nop.CString.Length.{IsString, strlen_lem}

-- What a search for `c` in the string of `len` bytes at `str` answers.
pub data IsFound (mem : Memory) (str len c : ℕ) : Option ℕ → Type 0 where
  at :
      (i : ℕ)
      → i < len
      → mem (str + i) ≡ c
      → ((j : ℕ) → j < i → mem (str + j) ≢ c)
      → IsFound mem str len c (some (str + i))
  missing : ((j : ℕ) → j < len → mem (str + j) ≢ c) → IsFound mem str len c none

module _ (mem : Memory) (str len c : ℕ) (s : IsString mem str len) where
  strchr_loop-IsFound :
      (fuel i : ℕ)
      → i ≤ len
      → len < i + fuel
      → ((j : ℕ) → j < i → mem (str + j) ≢ c)
      → IsFound mem str len c (strchr_loop fuel mem (str + i) c)
  unfolding strchr_loop
  strchr_loop-IsFound zero i h enough before = absurd (omega arith)
  strchr_loop-IsFound (suc fuel) i h enough before = elim (Bool-cases (mem (str + i) == 0)) [
    | inl stop ↦
        let ended : i ≡ len = ground (arith, s.nonzero i) in
        rw (stop, strchr_loop) (missing λ j below. before j (omega arith))
    | inr more ↦
        let inside : i < len = ground (arith, s.terminated) in
        rw (more, strchr_loop)
          (elim (Bool-cases (mem (str + i) == c)) [
            | inl hit ↦ rw hit (at i inside (ground arith) before)
            | inr miss ↦
                let next : str + i + 1 ≡ str + (i + 1) = omega arith in
                rw (miss, next)
                  (strchr_loop-IsFound fuel (i + 1) (omega arith) (omega arith)
                    λ j below. ground (arith, before j))
          ])
  ]

  -- `strchr` finds the first `c` of the string, and NULL exactly if there is none; the terminator is
  -- never found.
  pub strchr-IsFound : len < address_space → IsFound mem str len c (strchr mem str c)
  unfolding strchr
  strchr-IsFound h =
      subst (λ p. IsFound mem str len c (strchr_loop address_space mem p c)) (omega arith)
        (strchr_loop-IsFound address_space 0 (omega arith) (omega arith) λ j below. elim below [ ])

  strchrnul_of :
      (o : Option ℕ)
      → IsFound mem str len c o
      → len < address_space
      → (i : ℕ) × (i ≤ len)
        × (elim o [ some ptr ↦ ptr | none ↦ str + strlen mem str ] ≡ str + i)
        × ((j : ℕ) → j < i → mem (str + j) ≢ c)
        × ((i ≡ len) ⊎ (mem (str + i) ≡ c))
  strchrnul_of _ (at i h hit before) fits = (i, omega arith, refl, before, inr hit)
  strchrnul_of _ (missing nowhere) fits =
      (len, omega arith, ap (λ (n : ℕ). str + n) (strlen_lem mem str len s fits), nowhere, inl refl)

  -- `strchrnul` points to the first `c` of the string, or to its terminator.
  pub strchrnul_lem :
      len < address_space
      → (i : ℕ) × (i ≤ len)
        × (strchrnul mem str c ≡ str + i)
        × ((j : ℕ) → j < i → mem (str + j) ≢ c)
        × ((i ≡ len) ⊎ (mem (str + i) ≡ c))
  unfolding strchrnul
  strchrnul_lem h = strchrnul_of (strchr mem str c) (strchr-IsFound h) h

-- `toupper` is idempotent, each case conversion overrides the other, and `toupper` neither makes nor
-- removes a digit.
pub case_conversions :
    (chr : ℕ)
    → (toupper (toupper chr) ≡ toupper chr)
      × (toupper (tolower chr) ≡ toupper chr)
      × (tolower (toupper chr) ≡ tolower chr)
      × (isdigit (toupper chr) ≡ isdigit chr)
unfolding toupper tolower isdigit
case_conversions chr = (ground arith, ground arith, ground arith, ground arith)
