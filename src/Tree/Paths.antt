-- ===== src/Tree/Paths.antt =====
-- nop/tree.c: a path in memory as a list of components, and what its scans find there.
use nop.Base.{
  ℕ, zero, suc, ◌+◌, ◌-◌, ◌<◌, ◌≤◌, ◌≡◌, ◌≢◌, ◌⊎◌, inl, inr, refl, ap, sym, ◌∙◌, arith, Bool, true,
  false, ◌&&◌, none, some, List, [], ◌∷◌, length, get_or, ◌==◌, ltb, if◌then◌else◌, Memory, IsBytes,
  write, leb, Bool-cases,
}
use nop.Base.Int.{is_zero, is_zero-sub_int8}
use nop.CString.{memcpy_from, address_space, strchr_loop, strchr, strchrnul, memcmp, strcmp}
use nop.CString.Length.{IsString, strlen_lem}
use nop.CString.Copy.{memcpy_from-copied}
use nop.Tree.{skip_slashes, skip, tree_name_length, component}

-- The bytes of `c` stand at `p`.
abbrev pub Stands : Memory → ℕ → List ℕ → Type 0
Stands mem p c = (i : ℕ) → i < length c → mem (p + i) ≡ get_or c i 0

-- A component has bytes that are neither a slash nor a terminator.
abbrev pub IsPart : List ℕ → Type 0
IsPart c =
    (i : ℕ) → i < length c → (get_or c i 0 ≢ 0) × (get_or c i 0 ≢ b'/') × (get_or c i 0 < 256)

abbrev pub Slashes : Memory → ℕ → ℕ → Type 0
Slashes mem p k = (i : ℕ) → i < k → mem (p + i) ≡ b'/'

-- A component ends before a slash or at the terminator.
abbrev pub Ends : Memory → ℕ → Type 0
Ends mem p = (mem p ≡ b'/') ⊎ (mem p ≡ 0)

module _ (mem : Memory) (p : ℕ) (c : List ℕ) (part : IsPart c) (stands : Stands mem p c)
    (ends : Ends mem (p + length c)) (fits : length c < address_space) where
  -- The search runs over the component.
  search_over :
      (fuel i : ℕ)
      → i ≤ length c
      → length c < i + fuel
      → (mem (p + length c) ≡ b'/' → strchr_loop fuel mem (p + i) b'/' ≡ some (p + length c))
        × (mem (p + length c) ≡ 0 → strchr_loop fuel mem (p + i) b'/' ≡ none)
  unfolding strchr_loop
  search_over zero i h enough = absurd (omega arith)
  search_over (suc fuel) i h enough = elim (Bool-cases (ltb i (length c))) [
    | inl inside ↦
        let below : i < length c = ground arith in
        let e = stands i below in
        let (more, miss, byte) = part i below in
        let more' : (mem (p + i) == 0) ≡ false = ground arith in
        let miss' : (mem (p + i) == b'/') ≡ false = ground arith in
        let next : p + i + 1 ≡ p + (i + 1) = omega arith in
        rw (more', strchr_loop, miss', next) (search_over fuel (i + 1) (omega arith) (omega arith))
    | inr outside ↦
        let at_end : i ≡ length c = ground arith in
        rw at_end (
          λ slash.
              let more : (mem (p + length c) == 0) ≡ false = ground arith in
              let hit : (mem (p + length c) == b'/') ≡ true = ground arith in
              rw (more, hit, strchr_loop) refl,
          λ stop.
              let more : (mem (p + length c) == 0) ≡ true = ground arith in
              rw (more, strchr_loop) refl,
        )
  ]

  pub strchrnul-Ends : strchrnul mem p b'/' ≡ p + length c
  unfolding strchrnul strchr
  strchrnul-Ends =
      let found = search_over address_space 0 (omega arith) (omega arith) in
      let start : p + 0 ≡ p = omega arith in
      elim ends [
        | inl slash ↦
            let some_found : strchr_loop address_space mem p b'/' ≡ some (p + length c) =
              ap (λ (q : ℕ). strchr_loop address_space mem q b'/') (sym start) ∙ found.0 slash in
            rw (some_found, strchrnul) refl
        | inr stop ↦
            let s : IsString mem p (length c) = record {
              nonzero = λ i lt e. (part i lt).0 (sym (stands i lt) ∙ e);
              terminated = stop;
            } in
            let none_found : strchr_loop address_space mem p b'/' ≡ none =
              ap (λ (q : ℕ). strchr_loop address_space mem q b'/') (sym start) ∙ found.1 stop in
            rw (none_found, strchrnul) (ap (λ (n : ℕ). p + n) (strlen_lem mem p (length c) s fits))
      ]

plus_zero : (p : ℕ) → p + 0 ≡ p
plus_zero p = omega arith

-- The slashes in front are skipped.
skip_slashes-Slashes :
    (fuel : ℕ) (mem : Memory) (p k : ℕ)
    → Slashes mem p k
    → mem (p + k) ≢ b'/'
    → k < fuel
    → skip_slashes fuel mem p ≡ p + k
unfolding skip_slashes
skip_slashes-Slashes zero mem p k s more lt = elim lt [ ]
skip_slashes-Slashes (suc fuel) mem p zero s more lt =
    let other : (mem p == b'/') ≡ false = ground (arith, more, ap mem (plus_zero p)) in
    rw (other, skip_slashes) (omega arith)
skip_slashes-Slashes (suc fuel) mem p (suc k) s more lt =
    let slash : (mem p == b'/') ≡ true = ground (arith, s 0, ap mem (plus_zero p)) in
    let next : p + 1 + k ≡ p + suc k = omega arith in
    rw (slash, skip_slashes)
      (skip_slashes-Slashes fuel mem (p + 1) k
          (λ i lt'. ap mem (omega arith) ∙ s (suc i) (omega arith))
          (λ e. more (ap mem (sym next) ∙ e)) (omega arith)
        ∙ next)

get_or-length : (c : List ℕ) → get_or c (length c) 0 ≡ 0
get_or-length [] = refl
get_or-length (x ∷ c) = get_or-length c

pub skip-Slashes :
    (mem : Memory) (p k : ℕ)
    → k < address_space
    → Slashes mem p k
    → mem (p + k) ≢ b'/'
    → skip mem p ≡ p + k
unfolding skip
skip-Slashes mem p k lt s more = skip_slashes-Slashes address_space mem p k s more lt

-- The local array holds the component, with its terminator.
module _ (blank mem : Memory) (p : ℕ) (c : List ℕ) (stands : Stands mem p c) where
  in_array :
      (i : ℕ)
      → i ≤ length c
      → write (memcpy_from mem blank 0 p (p + length c - p)) (p + length c - p) 0 i ≡ get_or c i 0
  in_array i h =
      let size : p + length c - p ≡ length c = omega arith in
      elim (Bool-cases (length c == i)) [
        | inl last ↦
            let at_end : length c ≡ i = ground arith in
            rw (size, last) (sym (get_or-length c) ∙ ap (λ (k : ℕ). get_or c k 0) at_end)
        | inr inner ↦
            let inside : i < length c = ground arith in
            let back : i - 0 ≡ i = omega arith in
            rw (size, inner)
              (memcpy_from-copied (length c) mem blank 0 p i
                ∙ ground (arith, stands i inside, ap (λ (k : ℕ). mem (p + k)) back))
      ]

  pub component-some :
      length c ≤ tree_name_length
      → (name : Memory) × (component blank mem p (p + length c) ≡ some name)
        × ((i : ℕ) → i ≤ length c → name i ≡ get_or c i 0)
  unfolding component
  component-some short =
      let size = p + length c - p in
      let room : leb size tree_name_length ≡ true = ground arith in
      (write (memcpy_from mem blank 0 p size) size 0, rw room refl, in_array)

-- The name in front of a child is a prefix of the component `c`.
unfoldable pub begins : Memory → ℕ → List ℕ → Bool
begins name k [] = name k == 0
begins name k (x ∷ c) = if name k == 0 then true else (name k == x && begins name (k + 1) c)

-- A comparison as long as the name tests whether it begins the component behind which `other` ends.
memcmp-begins :
    (c : List ℕ) (n : ℕ) (name other : Memory) (k : ℕ)
    → IsBytes name
    → IsString name k n
    → IsPart c
    → ((i : ℕ) → i ≤ length c → other (k + i) ≡ get_or c i 0)
    → is_zero (memcmp name k other k n) ≡ begins name k c
unfolding memcmp begins
memcmp-begins [] zero name other k b s part same =
    ground (arith, s.terminated, ap name (plus_zero k))
memcmp-begins (x ∷ c) zero name other k b s part same =
    ground (arith, s.terminated, ap name (plus_zero k))
memcmp-begins [] (suc n) name other k b s part same =
    let here : other k ≡ 0 = ap other (sym (plus_zero k)) ∙ same 0 (omega arith) in
    let first : name k ≢ 0 = λ e. s.nonzero 0 (omega arith) (ap name (plus_zero k) ∙ e) in
    let differs : (name k == other k) ≡ false = ground (arith, first) in
    rw (differs, memcmp)
      (is_zero-sub_int8 (name k) (other k) (b k) (omega arith) ∙ ground (arith, first))
memcmp-begins (x ∷ c) (suc n) name other k b s part same =
    let here : other k ≡ x = ap other (sym (plus_zero k)) ∙ same 0 (omega arith) in
    let first : name k ≢ 0 = λ e. s.nonzero 0 (omega arith) (ap name (plus_zero k) ∙ e) in
    let nonzero : (name k == 0) ≡ false = ground (arith, first) in
    let rest : IsString name (k + 1) n = record {
      nonzero = λ i lt e. s.nonzero (suc i) (omega arith) (ap name (omega arith) ∙ e);
      terminated = ap name (omega arith) ∙ s.terminated;
    } in
    let later : IsPart c = λ i lt. part (suc i) (omega arith) in
    let same' : (i : ℕ) → i ≤ length c → other (k + 1 + i) ≡ get_or c i 0 =
      λ i h. ap other (omega arith) ∙ same (suc i) (omega arith) in
    let ih = memcmp-begins c n name other (k + 1) b rest later same' in
    elim (Bool-cases (name k == other k)) [
      | inl hit ↦
          let hit' : (name k == x) ≡ true = ground arith in
          rw (hit, memcmp, nonzero, begins, hit') ih
      | inr miss ↦
          let miss' : (name k == x) ≡ false = ground arith in
          let byte = (part 0 (omega arith)).2 in
          rw (miss, memcmp, nonzero, begins, miss')
            (is_zero-sub_int8 (name k) (other k) (b k) (omega arith) ∙ miss)
    ]

pub strcmp-begins :
    (c : List ℕ) (n : ℕ) (name other : Memory)
    → IsBytes name
    → IsString name 0 n
    → n < address_space
    → IsPart c
    → ((i : ℕ) → i ≤ length c → other i ≡ get_or c i 0)
    → is_zero (strcmp name 0 other 0) ≡ begins name 0 c
unfolding strcmp
strcmp-begins c n name other b s fits part same =
    rw (strlen_lem name 0 n s fits)
      (memcmp-begins c n name other 0 b s part (λ i h. ap other (omega arith) ∙ same i h))
