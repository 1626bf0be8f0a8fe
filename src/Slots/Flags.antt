-- ===== src/Slots/Flags.antt =====
-- Lists of `free` flags: how many slots are in use, and where the first free one is.
use nop.Base.{
  ℕ, zero, suc, ◌+◌, ◌≤◌, ◌<◌, ◌≡◌, refl, arith, Bool, true, false, Option, none, some, some, List,
  [], ◌∷◌, ◌++◌, length, get_elem?, set, ap,
}
use nop.Slots.{first_free}

unfoldable pub count_used : List Bool → ℕ
count_used [] = 0
count_used (true ∷ flags) = count_used flags
count_used (false ∷ flags) = suc (count_used flags)

pub count_used-le : (flags : List Bool) → count_used flags ≤ length flags
unfolding count_used
count_used-le [] = omega arith
count_used-le (true ∷ flags) = omega (arith, count_used-le flags)
count_used-le (false ∷ flags) = omega (arith, count_used-le flags)

pub count_used-append : (xs ys : List Bool) → count_used (xs ++ ys) ≡ count_used xs + count_used ys
unfolding count_used
count_used-append [] ys = omega arith
count_used-append (true ∷ xs) ys = count_used-append xs ys
count_used-append (false ∷ xs) ys = omega (arith, count_used-append xs ys)

pub count_used-take_slot :
    (flags : List Bool) (i : ℕ)
    → get_elem? flags i ≡ some true
    → count_used (set flags i false) ≡ count_used flags + 1
unfolding count_used
count_used-take_slot [] i h = cc
count_used-take_slot (true ∷ flags) zero h = omega arith
count_used-take_slot (false ∷ flags) zero h = cc
count_used-take_slot (true ∷ flags) (suc i) h = count_used-take_slot flags i h
count_used-take_slot (false ∷ flags) (suc i) h = omega (arith, count_used-take_slot flags i h)

pub count_used-free_slot :
    (flags : List Bool) (i : ℕ)
    → get_elem? flags i ≡ some false
    → count_used (set flags i true) + 1 ≡ count_used flags
unfolding count_used
count_used-free_slot [] i h = cc
count_used-free_slot (true ∷ flags) zero h = cc
count_used-free_slot (false ∷ flags) zero h = omega arith
count_used-free_slot (true ∷ flags) (suc i) h = count_used-free_slot flags i h
count_used-free_slot (false ∷ flags) (suc i) h = omega (arith, count_used-free_slot flags i h)

-- What `first_free` finds.
pub data IsFirstFree (flags : List Bool) : Option ℕ → Type 0 where
  first :
      (i : ℕ)
      → get_elem? flags i ≡ some true
      → ((j : ℕ) → j < i → get_elem? flags j ≡ some false)
      → IsFirstFree flags (some i)
  full : count_used flags ≡ length flags → IsFirstFree flags none

IsFirstFree-suc :
    {flags : List Bool} {o : Option ℕ}
    → IsFirstFree flags o
    → IsFirstFree (false ∷ flags) (elim o [ none ↦ none | some i ↦ some (suc i) ])
unfolding count_used
IsFirstFree-suc (first i h before) =
    first (suc i) h (elim [ zero ↦ λ lt. refl | suc j ↦ λ lt. before j (omega arith) ])
IsFirstFree-suc (full h) = full (ap suc h)

pub first_free-IsFirstFree : (flags : List Bool) → IsFirstFree flags (first_free flags)
unfolding first_free count_used
first_free-IsFirstFree [] = full refl
first_free-IsFirstFree (true ∷ flags) = first 0 refl (λ j h. elim h [ ])
first_free-IsFirstFree (false ∷ flags) = IsFirstFree-suc (first_free-IsFirstFree flags)

pub first_free-none :
    (flags : List Bool) → count_used flags ≡ length flags → first_free flags ≡ none
unfolding first_free count_used
first_free-none [] h = refl
first_free-none (true ∷ flags) h = absurd (omega (arith, count_used-le flags))
first_free-none (false ∷ flags) h = rw (first_free-none flags (omega arith), first_free)
