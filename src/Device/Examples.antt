-- ===== src/Device/Examples.antt =====
-- Runs of nop/device.c, on devices whose calls do nothing.
use mathlib.Core.Path.{subst}
use mathlib.Core.Option.{some-injective, none-ne-some}
use nop.Base.{
  true, ℕ, zero, suc, ◌≡◌, refl, arith, some, List, [], ◌∷◌, get_elem?, Memory, IsBytes, of_list,
  of_list-IsBytes, codes, replicate,
}
use nop.Base.Int.{pos}
use nop.CString.{memcmp, isdigit, strchr, strchr_loop, toupper}
use nop.Digits.{str_to_ulong, parse_loop}
use nop.Slots.{Table, grow, remove}
use nop.Slots.Flags.{count_used}
use nop.Slots.Laws.{IsValid, flags}
use nop.Device.{
  set_free, Device, is_free, device_add, device_free, device_alloc_step, suffix_step, suffix_from,
}
use nop.Device.Laws.{device_add-IsValid}

abbrev still : ℕ → Memory → Device ℕ
still free name = record {
  name = name;
  is_public = 0;
  address = 0;
  free = free;
  feature = λ id f w. 0;
  commit = λ id w. w;
  write = λ id src ptr n w. (w, 0);
  read = λ id dst ptr n w. (w, dst, 0);
  seek = λ id offset mode w. w;
  tell = λ id w. 0;
  trim = λ id w. w;
}

abbrev sata : Memory
sata = of_list (codes "sata")

abbrev sata4 : Device ℕ
sata4 = still 0 (of_list (codes "sata4"))

abbrev sata3 : Device ℕ
sata3 = still 0 (of_list (codes "sata3"))

abbrev blank_slots : List (Device ℕ)
blank_slots = replicate 8 (still 1 sata)

abbrev two : Table (Device ℕ)
two = record { slots = sata4 ∷ sata3 ∷ []; used = 2; total = 2 }

two-IsValid : IsValid is_free two
two-IsValid = record { size = refl; counted = unfold count_used in refl }

-- The number is that after the last device, so a name that is there may be given again.
given_again : suffix_from 2 0 sata 4 0 two.slots ≡ 4
unfolding suffix_from suffix_step str_to_ulong memcmp isdigit parse_loop strchr strchr_loop toupper
given_again = refl

device_add-IsValid_example :
    IsValid is_free (device_add blank_slots (still 0 sata) 0 two).0
    × ((i : ℕ) × ((device_add blank_slots (still 0 sata) 0 two).1 ≡ some i)
        × (get_elem? (flags is_free (grow device_alloc_step blank_slots two)) i ≡ some true))
device_add-IsValid_example =
    device_add-IsValid blank_slots (still 0 sata) 0 two refl (unfold count_used in refl) two-IsValid

abbrev one_left : Table (Device ℕ)
one_left = record { slots = sata4 ∷ record sata3 { free = 1 } ∷ []; used = 1; total = 2 }

freed : device_free (pos 1) two ≡ some one_left
unfolding device_free remove set_free
freed = refl

all-IsBytes : (j : ℕ) (d : Device ℕ) → get_elem? two.slots j ≡ some d → IsBytes d.name
all-IsBytes zero d e =
    subst (λ (x : Device ℕ). IsBytes x.name) (some-injective _ _ e)
      (of_list-IsBytes (codes "sata4") (omega arith))
all-IsBytes (suc zero) d e =
    subst (λ (x : Device ℕ). IsBytes x.name) (some-injective _ _ e)
      (of_list-IsBytes (codes "sata3") (omega arith))
all-IsBytes (suc (suc j)) d e = absurd (none-ne-some _ e)
