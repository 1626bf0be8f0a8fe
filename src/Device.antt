-- ===== src/Device.antt =====
-- nop/device.c: the table of devices. A `device_t` has its `name` array as a memory of its own; its
-- function pointers take the index of the device in the table for its address, and work on the state `W`
-- of the system. `fresh` stands for the slots that `realloc` adds, whose contents the code does not
-- initialise. The log of public devices is left out.
pub mod Laws
pub mod Suffix
mod Examples
use nop.Base.{
  ℕ, zero, suc, ◌+◌, Bool, true, false, ◌&&◌, not, Option, none, some, List, [], ◌∷◌, ◌==◌, u32,
  sub32, if◌then◌else◌, get_elem?, set, Memory,
}
use nop.Base.Int.{ℤ, pos, negsuc, is_zero}
use nop.Api.{Feature, SeekMode}
use nop.CString.{strlen, memcmp, strncmp, isdigit}
use nop.Digits.{ulong_to_str, str_to_ulong}
use nop.Slots.{Table, grow, insert, remove, find_from}

abbrev pub device_name_length : ℕ
device_name_length = 15

abbrev pub device_alloc_step : ℕ
device_alloc_step = 8

pub record Device (W : Type 0) : Type 0 where
  pub name : Memory
  pub is_public : ℕ
  pub address : ℕ
  pub free : ℕ
  pub feature : ℕ → Feature → W → ℕ
  pub commit : ℕ → W → W
  pub write : ℕ → Memory → ℕ → ℕ → W → W × ℕ
  pub read : ℕ → Memory → ℕ → ℕ → W → W × Memory × ℕ
  pub seek : ℕ → ℤ → SeekMode → W → W
  pub tell : ℕ → W → ℕ
  pub trim : ℕ → W → W

-- `DEVICE_NAME_LENGTH - length`, as the `size_t` that it is passed for
abbrev pub suffix_room : ℕ → ℕ
suffix_room length = sub32 device_name_length length

module _ {W : Type 0} where
  abbrev pub is_free : Device W → Bool
  is_free d = not (d.free == 0)

  -- One round of the loop over `j`; slots that are free count as well.
  unfoldable pub suffix_step : ℕ → ℕ → Memory → ℕ → ℕ → Device W → ℕ
  suffix_step i j name length value d =
      if i == j
      then value
      else if is_zero (memcmp name 0 d.name 0 length) && isdigit (d.name length)
      then u32 (str_to_ulong d.name 10 length (suffix_room length) + 1)
      else value

  unfoldable pub suffix_from : ℕ → ℕ → Memory → ℕ → ℕ → List (Device W) → ℕ
  suffix_from i j name length value [] = value
  suffix_from i j name length value (d ∷ slots) =
      suffix_from i (j + 1) name length (suffix_step i j name length value d) slots

  unfoldable pub suffixed : ℕ → Memory → List (Device W) → Memory
  suffixed i name slots =
      let length = strlen name 0 in
      ulong_to_str name (suffix_from i 0 name length 0 slots) 10 length (suffix_room length)

  -- `devices[i] = device; devices[i].free = 0`, and the name
  unfoldable pub place : Device W → ℕ → ℕ → List (Device W) → List (Device W)
  place d no_suffix i slots =
      let plain = record d { free = 0 } in
      if no_suffix == 0
      then set slots i (record plain { name = suffixed i d.name (set slots i plain) })
      else set slots i plain

  unfoldable pub device_add :
      List (Device W) → Device W → ℕ → Table (Device W) → Table (Device W) × Option ℕ
  device_add fresh device no_suffix t =
      insert is_free (place device no_suffix) (grow device_alloc_step fresh t)

  unfoldable pub is_named : Memory → Device W → Bool
  is_named name d = d.free == 0 && is_zero (strncmp d.name 0 name 0 device_name_length)

  unfoldable pub device_find : Memory → Table (Device W) → Option ℕ
  device_find name t = find_from (is_named name) 0 t.slots

  unfoldable pub set_free : ℕ → List (Device W) → List (Device W)
  set_free i [] = []
  set_free zero (d ∷ slots) = record d { free = 1 } ∷ slots
  set_free (suc i) (d ∷ slots) = d ∷ set_free i slots

  -- `none` is an access out of range, here and below.
  unfoldable pub device_free : ℤ → Table (Device W) → Option (Table (Device W))
  device_free (negsuc n) t = some t
  device_free (pos id) t = remove is_free set_free id t

  -- The calls by index: the table is read from the state that they work on.
  module _ (table : W → Table (Device W)) where
    abbrev pub with_device : {A : Type 0} → ℕ → W → (Device W → A) → Option A
    with_device id w f = elim (get_elem? (table w).slots id) [ none ↦ none | some d ↦ some (f d) ]

    unfoldable pub device_feature : ℕ → Feature → W → Option ℕ
    device_feature id feature w = with_device id w (λ d. d.feature id feature w)

    unfoldable pub device_commit : ℕ → W → Option W
    device_commit id w = with_device id w (λ d. d.commit id w)

    unfoldable pub device_write : ℕ → Memory → ℕ → ℕ → W → Option (W × ℕ)
    device_write id src ptr n w = with_device id w (λ d. d.write id src ptr n w)

    unfoldable pub device_read : ℕ → Memory → ℕ → ℕ → W → Option (W × Memory × ℕ)
    device_read id dst ptr n w = with_device id w (λ d. d.read id dst ptr n w)

    unfoldable pub device_seek : ℕ → ℤ → SeekMode → W → Option W
    device_seek id offset mode w = with_device id w (λ d. d.seek id offset mode w)

    unfoldable pub device_tell : ℕ → W → Option ℕ
    device_tell id w = with_device id w (λ d. d.tell id w)

    unfoldable pub device_trim : ℕ → W → Option W
    device_trim id w = with_device id w (λ d. d.trim id w)
