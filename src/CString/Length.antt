-- ===== src/CString/Length.antt =====
-- lib/string.c: terminated strings, `strlen`, and the copies that go by it.
use nop.Base.{ℕ, zero, suc, ◌+◌, ◌-◌, ◌≤◌, ◌<◌, ◌≡◌, ◌≢◌, ◌⊎◌, arith, Memory, ap}
use nop.CString.{address_space, strlen_loop, strlen, strcpy, strcat}
use nop.CString.Copy.{copied, memcpy-copied}

-- A terminated string of `len` bytes at `str`.
pub record IsString (mem : Memory) (str len : ℕ) : Type 0 where
  pub nonzero : (i : ℕ) → i < len → mem (str + i) ≢ 0
  pub terminated : mem (str + len) ≡ 0

strlen_loop_lem :
    (fuel : ℕ) (mem : Memory) (str n len : ℕ)
    → IsString mem str len
    → n ≤ len
    → len < n + fuel
    → strlen_loop fuel mem str n ≡ len
unfolding strlen_loop
strlen_loop_lem zero mem str n len s h fuel = absurd (omega arith)
strlen_loop_lem (suc fuel) mem str n len s h enough =
    ground (arith, s.nonzero n, s.terminated, strlen_loop_lem fuel mem str (n + 1) len s)

-- `strlen` counts the bytes before the terminator.
pub strlen_lem :
    (mem : Memory) (str len : ℕ) → IsString mem str len → len < address_space → strlen mem str ≡ len
unfolding strlen
strlen_lem mem str len s h =
    strlen_loop_lem address_space mem str 0 len s (omega arith) (omega arith)

module _ (mem : Memory) (s1 s2 n m : ℕ) where
  -- `strcpy` copies the string with its terminator.
  pub strcpy-copied :
      (a : ℕ)
      → IsString mem s2 m
      → m < address_space
      → (s1 ≤ s2) ⊎ (s2 + m + 1 ≤ s1)
      → strcpy mem s1 s2 a ≡ copied mem mem s1 s2 (m + 1) a
  unfolding strcpy
  strcpy-copied a s h apart =
      rw (strlen_lem mem s2 m s h) (memcpy-copied (m + 1) mem s1 s2 a (omega arith))

  -- `strcat` writes the second string, terminator included, over the terminator of the first and
  -- nothing else, so that the first string then goes on with the second.
  pub strcat-IsString :
      IsString mem s1 n
      → IsString mem s2 m
      → n < address_space
      → m < address_space
      → (s1 + n + m < s2) ⊎ (s2 + m < s1)
      → IsString (strcat mem s1 s2) s1 (n + m)
        × ((a : ℕ) → strcat mem s1 s2 a ≡ copied mem mem (s1 + n) s2 (m + 1) a)
  strcat-IsString s t hn hm apart = (
    record {
      nonzero =
          λ i h. ground (arith, content (s1 + i), s.nonzero i, t.nonzero (i - n), ap mem (index i));
      terminated = ground (arith, content (s1 + (n + m)), t.terminated, ap mem (index (n + m)));
    },
    content,
  )
    where
      index : (i : ℕ) → s2 + (s1 + i - (s1 + n)) ≡ s2 + (i - n)
      index i = omega arith

      content : (a : ℕ) → strcat mem s1 s2 a ≡ copied mem mem (s1 + n) s2 (m + 1) a
      content a =
          unfold strcat strcpy in
          rw (strlen_lem mem s1 n s hn, strlen_lem mem s2 m t hm)
            (memcpy-copied (m + 1) mem (s1 + n) s2 a (omega arith))
