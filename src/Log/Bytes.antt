-- ===== src/Log/Bytes.antt =====
-- nop/log.c: bytes in memory as a list, and a list stored in memory.
use nop.Base.{
  get_or, ℕ, zero, suc, ◌+◌, ◌-◌, ◌<◌, ◌≤◌, ◌≡◌, refl, arith, List, [], ◌∷◌, ◌++◌, length, ap, sym,
  ◌∙◌, Bool-cases, inl, inr, Memory, ltb,
}
use nop.CString.Copy.{copied}

-- The bytes at an address.
abbrev pub bytes_at : Memory → ℕ → ℕ → List ℕ
bytes_at mem str zero = []
bytes_at mem str (suc n) = mem str ∷ bytes_at mem (str + 1) n

suc_left : (a b : ℕ) → suc a + b ≡ suc (a + b)
suc_left a b = omega arith

pub get_or-append_left :
    (xs ys : List ℕ) (i : ℕ) → i < length xs → get_or (xs ++ ys) i 0 ≡ get_or xs i 0
get_or-append_left [] ys i lt = elim lt [ ]
get_or-append_left (x ∷ xs) ys zero lt = refl
get_or-append_left (x ∷ xs) ys (suc i) lt = get_or-append_left xs ys i (omega arith)

pub get_or-append_right :
    (xs ys : List ℕ) (i : ℕ) → get_or (xs ++ ys) (length xs + i) 0 ≡ get_or ys i 0
get_or-append_right [] ys i = ap (λ (k : ℕ). get_or ys k 0) (omega arith)
get_or-append_right (x ∷ xs) ys i =
    ap (λ (k : ℕ). get_or (x ∷ (xs ++ ys)) k 0) (suc_left (length xs) i)
    ∙ get_or-append_right xs ys i

pub get_or-bytes_at :
    (n : ℕ) (mem : Memory) (str i : ℕ) → i < n → get_or (bytes_at mem str n) i 0 ≡ mem (str + i)
get_or-bytes_at zero mem str i lt = elim lt [ ]
get_or-bytes_at (suc n) mem str zero lt = ap mem (omega arith)
get_or-bytes_at (suc n) mem str (suc i) lt =
    get_or-bytes_at n mem (str + 1) i (omega arith) ∙ ap mem (omega arith)

pub length-bytes_at : (n : ℕ) (mem : Memory) (str : ℕ) → length (bytes_at mem str n) ≡ n
length-bytes_at zero mem str = refl
length-bytes_at (suc n) mem str = ap suc (length-bytes_at n mem (str + 1))

-- Bytes copied behind a text that is stored make the two stored.
pub stored-append :
    (n : ℕ) (mem buffer : Memory) (str : ℕ) (text : List ℕ)
    → ((i : ℕ) → i < length text → buffer i ≡ get_or text i 0)
    → (i : ℕ) → i < length text + n
    → copied mem buffer (length text) str n i ≡ get_or (text ++ bytes_at mem str n) i 0
stored-append n mem buffer str text h i lt = elim (Bool-cases (ltb i (length text))) [
  | inl low ↦
      let small : i < length text = ground arith in
      let old : copied mem buffer (length text) str n i ≡ buffer i = ground arith in
      old ∙ h i small ∙ sym (get_or-append_left text (bytes_at mem str n) i small)
  | inr high ↦
      let large : length text ≤ i = ground arith in
      let new : copied mem buffer (length text) str n i ≡ mem (str + (i - length text)) =
        ground arith in
      let back : length text + (i - length text) ≡ i = omega arith in
      new
      ∙ sym (get_or-bytes_at n mem str (i - length text) (omega arith))
      ∙ sym (get_or-append_right text (bytes_at mem str n) (i - length text))
      ∙ ap (λ (k : ℕ). get_or (text ++ bytes_at mem str n) k 0) back
]
