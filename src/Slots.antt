-- ===== src/Slots.antt =====
-- The growing table that nop/device.c and nop/event.c both keep by hand: an array, the number of its
-- slots in use and its size. A slot says by its `free` field whether it may be taken.
pub mod Find
pub mod Flags
pub mod Laws
use nop.Base.{
  ℕ, zero, suc, ◌+◌, ◌-◌, ◌≤◌, ◌<◌, Bool, true, false, Option, none, some, List, [], ◌∷◌, ◌++◌, leb,
  if◌then◌else◌, get_elem?, map,
}

pub record Table (A : Type 0) : Type 0 where
  pub slots : List A
  pub used : ℕ
  pub total : ℕ

-- The first slot that is free, from the flags of the slots.
unfoldable pub first_free : List Bool → Option ℕ
first_free [] = none
first_free (true ∷ flags) = some 0
first_free (false ∷ flags) = elim (first_free flags) [ none ↦ none | some i ↦ some (suc i) ]

module _ {A : Type 0} where
  -- `if (used >= total)`: `fresh` is what `realloc` leaves in the new slots.
  unfoldable pub grow : ℕ → List A → Table A → Table A
  grow step fresh t =
      if leb t.total t.used
      then record t { slots = t.slots ++ fresh; total = t.total + step }
      else t

  module _ (is_free : A → Bool) where
    -- The loop of `handle_add` and `device_add`: `place i` fills slot `i`. `none` is -1.
    unfoldable pub insert : (ℕ → List A → List A) → Table A → Table A × Option ℕ
    insert place t = elim (first_free (map is_free t.slots)) [
      | none ↦ (t, none)
      | some i ↦ (record t { slots = place i t.slots; used = t.used + 1 }, some i)
    ]

    -- `handle_free` and `device_free` at an index in range, `release` setting `free`.
    unfoldable pub remove : (ℕ → List A → List A) → ℕ → Table A → Option (Table A)
    remove release id t = elim (get_elem? (map is_free t.slots) id) [
      | none ↦ none
      | some true ↦ some t
      | some false ↦ some (record t { slots = release id t.slots; used = t.used - 1 })
    ]

  -- The loop of `handle_find` and `device_find` over the slots from the `i`-th on.
  unfoldable pub find_from : (A → Bool) → ℕ → List A → Option ℕ
  find_from test i [] = none
  find_from test i (x ∷ slots) =
      let rest = find_from test (i + 1) slots in if test x then some i else rest
