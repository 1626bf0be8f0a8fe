-- ===== src/Device/Laws.antt =====
-- nop/device.c: registration keeps the table's count and a suffix makes a name that reads back; a lookup
-- finds the first device of a name.
use mathlib.Core.Path.{subst}
use mathlib.Core.Option.{some-injective}
use nop.Base.{
  ℕ, zero, suc, ◌≡◌, ◌↔◌, refl, arith, true, false, some, List, [], ◌∷◌, map, length, get_elem?,
  set, ap, Bool-cases, inl, inr, Memory, IsBytes, not, ◌==◌,
}
use nop.Base.Int.{ℤ, pos, negsuc, split_test}
use nop.CString.{strncmp}
use nop.CString.Compare.{SameText, strncmp-SameText}
use nop.Slots.{Table, grow}
use nop.Slots.Flags.{count_used}
use nop.Slots.Find.{IsFirst, find_from-IsFirst}
use nop.Slots.Laws.{
  IsValid, Marks, flags, grow-IsValid, insert-IsValid, remove-IsValid, insert-grow,
}
use nop.Device.{
  Device, is_free, place, set_free, device_alloc_step, device_name_length, device_add, device_find,
  device_free, is_named, suffixed,
}

module _ {W : Type 0} where
  set-Marks :
      (d : Device W)
      → d.free ≡ 0
      → (i : ℕ) (slots : List (Device W))
      → map is_free (set slots i d) ≡ set (map is_free slots) i false
  set-Marks d e i [] = refl
  set-Marks d e zero (x ∷ slots) = ap (λ (n : ℕ). not (n == 0) ∷ map is_free slots) e
  set-Marks d e (suc i) (x ∷ slots) = ap (λ l. is_free x ∷ l) (set-Marks d e i slots)

  place-Marks : (d : Device W) (no_suffix : ℕ) → Marks is_free false (place d no_suffix)
  unfolding place
  place-Marks d no_suffix i slots =
      let plain = record d { free = 0 } in
      elim (Bool-cases (no_suffix == 0)) [
        | inl yes' ↦
            rw yes' (
              set-Marks (record plain { name = suffixed i d.name (set slots i plain) }) refl i
                slots)
        | inr no' ↦ rw no' (set-Marks plain refl i slots)
      ]

  set_free-Marks : Marks is_free true (set_free {W = W})
  unfolding set_free
  set_free-Marks i [] = refl
  set_free-Marks zero (x ∷ slots) = refl
  set_free-Marks (suc i) (x ∷ slots) = ap (λ l. is_free x ∷ l) (set_free-Marks i slots)

  -- If the slots that realloc adds come out free, as many as were asked for, device_add keeps the
  -- count of the table, and hands out a slot that was not in use.
  pub device_add-IsValid :
      (fresh : List (Device W)) (device : Device W) (no_suffix : ℕ) (t : Table (Device W))
      → length fresh ≡ device_alloc_step
      → count_used (map is_free fresh) ≡ 0
      → IsValid is_free t
      → IsValid is_free (device_add fresh device no_suffix t).0
        × ((i : ℕ) × ((device_add fresh device no_suffix t).1 ≡ some i)
            × (get_elem? (flags is_free (grow device_alloc_step fresh t)) i ≡ some true))
  unfolding device_add
  device_add-IsValid fresh device no_suffix t size unused v = (
    insert-IsValid is_free (place device no_suffix) (place-Marks device no_suffix)
        (grow-IsValid is_free device_alloc_step fresh size unused v),
    insert-grow is_free (place device no_suffix) device_alloc_step fresh t (omega arith) size unused
        v,
  )

  -- device_free keeps the count of the table, whichever index in range it is given.
  pub device_free-IsValid :
      (id : ℤ) (t t' : Table (Device W))
      → IsValid is_free t
      → device_free id t ≡ some t'
      → IsValid is_free t'
  unfolding device_free
  device_free-IsValid (negsuc n) t t' v e = subst (IsValid is_free) (some-injective _ _ e) v
  device_free-IsValid (pos id) t t' v e = remove-IsValid is_free set_free id set_free-Marks v e

  -- What a lookup is for: a device in use whose name is `name`, as far as 15 characters go.
  abbrev pub IsNamed : Memory → Device W → Type 0
  IsNamed name d = (d.free ≡ 0) × SameText d.name 0 name 0 device_name_length

  is_named-IsNamed :
      (name : Memory) (d : Device W)
      → IsBytes name
      → IsBytes d.name
      → (is_named name d ≡ true) ↔ IsNamed name d
  unfolding is_named
  is_named-IsNamed name d b b' =
      let same = strncmp-SameText d.name name b' b device_name_length 0 0 in
      let test = split_test d.free (strncmp d.name 0 name 0 device_name_length) in
      (λ e. let (unused, z) = test.0 e in (unused, same.0 z), λ n. test.1 (n.0, same.1 n.1))

  -- device_find returns the first device in use whose name is the given one, as far as 15 characters
  -- go, and -1 exactly if there is none.
  pub device_find-IsFirst :
      (name : Memory) (t : Table (Device W))
      → IsBytes name
      → ((j : ℕ) (d : Device W) → get_elem? t.slots j ≡ some d → IsBytes d.name)
      → IsFirst (IsNamed name) t.slots (device_find name t)
  unfolding device_find
  device_find-IsFirst name t b all =
      find_from-IsFirst (IsNamed name) (is_named name) t.slots
        (λ j d e. is_named-IsNamed name d b (all j d e))
