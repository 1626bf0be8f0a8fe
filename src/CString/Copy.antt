-- ===== src/CString/Copy.antt =====
-- lib/string.c: the copying and filling functions, address by address.
use nop.Base.{
  ℕ, zero, suc, ◌+◌, ◌-◌, ◌≤◌, ◌≡◌, ◌⊎◌, arith, ◌&&◌, ltb, leb, if◌then◌else◌, Memory, write, ap₂,
  ◌∙◌,
}
use nop.CString.{memcpy, memcpy_from, memmove_down, memmove, memset}

-- `n` bytes of `src` from `s2` on, put into `mem` from `s1` on.
abbrev pub copied : Memory → Memory → ℕ → ℕ → ℕ → Memory
copied src mem s1 s2 n a = if leb s1 a && ltb a (s1 + n) then src (s2 + (a - s1)) else mem a

-- `memcpy` copies, if the target does not begin inside the source behind its start.
pub memcpy-copied :
    (n : ℕ) (mem : Memory) (s1 s2 a : ℕ)
    → (s1 ≤ s2) ⊎ (s2 + n ≤ s1)
    → memcpy mem s1 s2 n a ≡ copied mem mem s1 s2 n a
unfolding memcpy
memcpy-copied zero mem s1 s2 a h = ground arith
memcpy-copied (suc n) mem s1 s2 a h =
    ground (arith, memcpy-copied n (write mem s1 (mem s2)) (s1 + 1) (s2 + 1) a)

pub memcpy_from-copied :
    (n : ℕ) (src mem : Memory) (s1 s2 a : ℕ)
    → memcpy_from src mem s1 s2 n a ≡ copied src mem s1 s2 n a
unfolding memcpy_from
memcpy_from-copied zero src mem s1 s2 a = ground arith
memcpy_from-copied (suc n) src mem s1 s2 a =
    ground (arith, memcpy_from-copied n src (write mem s1 (src s2)) (s1 + 1) (s2 + 1) a)

memmove_down-suc :
    (n : ℕ) (mem : Memory) (s1 s2 : ℕ)
    → memmove_down mem (s1 + suc n) (s2 + suc n) (suc n)
      ≡ memmove_down (write mem (s1 + n) (mem (s2 + n))) (s1 + n) (s2 + n) n
unfolding memmove_down
memmove_down-suc n mem s1 s2 =
    let e1 : s1 + suc n - 1 ≡ s1 + n = omega arith in
    let e2 : s2 + suc n - 1 ≡ s2 + n = omega arith in
    ap₂ (λ (p q : ℕ). memmove_down (write mem p (mem q)) p q n) e1 e2

memmove_down-copied :
    (n : ℕ) (mem : Memory) (s1 s2 a : ℕ)
    → s2 ≤ s1
    → memmove_down mem (s1 + n) (s2 + n) n a ≡ copied mem mem s1 s2 n a
memmove_down-copied zero mem s1 s2 a h = unfold memmove_down in ground arith
memmove_down-copied (suc n) mem s1 s2 a h =
    rw (memmove_down-suc n mem s1 s2)
      (memmove_down-copied n (write mem (s1 + n) (mem (s2 + n))) s1 s2 a h ∙ ground arith)

-- `memmove` copies whatever the overlap.
pub memmove-copied :
    (n : ℕ) (mem : Memory) (s1 s2 a : ℕ) → memmove mem s1 s2 n a ≡ copied mem mem s1 s2 n a
unfolding memmove
memmove-copied n mem s1 s2 a =
    ground (arith, memcpy-copied n mem s1 s2 a, memmove_down-copied n mem s1 s2 a)

-- `memset` fills `n` bytes from `ptr` on and changes no other.
pub memset_lem :
    (n : ℕ) (mem : Memory) (ptr c a : ℕ)
    → memset mem ptr c n a ≡ (if leb ptr a && ltb a (ptr + n) then c else mem a)
unfolding memset
memset_lem zero mem ptr c a = ground arith
memset_lem (suc n) mem ptr c a = ground (arith, memset_lem n (write mem ptr c) (ptr + 1) c a)
