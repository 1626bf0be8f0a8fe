-- ===== src/PciTree.antt =====
-- nop/tree/pci.c: the tree of PCI functions found by a scan of the configuration space, and the window
-- device of one function. The device that holds the space is reached by its calls alone, which are
-- parameters on the state `W` of the system. `junk` stands for variables that were never set; `pci->devices`
-- is a list, and what `malloc` and `realloc` return is left out.
pub mod Laws
pub mod Space
pub mod Test
pub mod Scan
pub mod Config
mod Examples
use nop.Base.{
  ℕ, zero, suc, ◌+◌, ◌-◌, ◌*◌, ◌/◌, ◌%◌, ◌^◌, bit_or, Bool, true, false, ◌&&◌, not, Option, none,
  some, List, [], ◌∷◌, ◌++◌, Memory, write, of_list, codes, u16, sub32, ltb, leb, ◌==◌,
  if◌then◌else◌, ◌<<<◌,
}
use nop.Base.Int.{ℤ, pos, negsuc, is_zero}
use nop.Api.{
  Feature, feature_present, feature_write, feature_read, feature_seek, feature_page_size, SeekMode,
  seek_set, seek,
}
use nop.CString.{memcmp}
use nop.Digits.{str_to_ulong, ulong_to_str_align}

pub record PciDevice : Type 0 where
  pub id : ℕ
  pub offset : ℕ
  pub addr : ℕ

abbrev pub window_size : ℕ
window_size = 0x0100

unfoldable pub clip : PciDevice → ℕ → ℕ
clip d n = if ltb (sub32 window_size d.offset) n then sub32 window_size d.offset else n

unfoldable pub pci_device_feature : Feature → ℕ
pci_device_feature feature_present = 1
pci_device_feature feature_write = 1
pci_device_feature feature_read = 1
pci_device_feature feature_seek = 1
pci_device_feature feature_page_size = 4
pci_device_feature feature = 0

unfoldable pub pci_device_seek : PciDevice → ℤ → SeekMode → PciDevice
pci_device_seek d offset mode = record d { offset = seek window_size d.offset offset mode }

unfoldable pub pci_device_tell : PciDevice → ℕ
pci_device_tell d = d.offset

-- `pci_device->offset | ((size_t)(pci_device->addr) << 8)`
unfoldable pub window_position : PciDevice → ℕ
window_position d = bit_or d.offset (d.addr <<< 8)

-- `pci_open` up to its `device_add`: the device that it registers.
unfoldable pub pci_open : ℕ → Memory → ℕ → Option PciDevice
pci_open id mem path =
    if mem path == 0
    then none
    else some (record { id = id; offset = 0; addr = u16 (str_to_ulong mem 16 path 4) })

-- The names that `pci_list` writes into the list's entries.
unfoldable pub entry_name : Memory → ℕ → PciDevice → Memory
entry_name junk ptr d = write (ulong_to_str_align junk d.addr 16 ptr 4) (ptr + 4) 0

unfoldable pub pci_push : ℕ → List PciDevice → ℕ → List PciDevice
pci_push id devices addr = devices ++ record { id = id; offset = 0; addr = addr } ∷ []

module _ {W : Type 0} (device_feature : ℕ → Feature → W → ℕ)
    (device_seek : ℕ → ℤ → SeekMode → W → W) (device_read : ℕ → Memory → ℕ → ℕ → W → W × Memory × ℕ)
    (device_write : ℕ → Memory → ℕ → ℕ → W → W × ℕ) (junk : Memory) where
  unfoldable pub pci_device_write : PciDevice → Memory → ℕ → ℕ → W → W × ℕ
  pci_device_write d src ptr n w =
      device_write d.id src ptr (clip d n) (device_seek d.id (pos (window_position d)) seek_set w)

  unfoldable pub pci_device_read : PciDevice → Memory → ℕ → ℕ → W → W × Memory × ℕ
  pci_device_read d dst ptr n w =
      device_read d.id dst ptr (clip d n) (device_seek d.id (pos (window_position d)) seek_set w)

  -- `vendor_id`, and the `device_id` behind it, which is read and not used
  unfoldable pub read_ids : ℕ → ℕ → W → W × ℕ
  read_ids id offset w =
      let (w1, vendor, n) = device_read id junk 0 2 (device_seek id (pos offset) seek_set w) in
      let (w2, device, n') = device_read id junk 0 2 w1 in (w2, vendor 0 + 2 ^ 8 * vendor 1)

  unfoldable pub read_header_type : ℕ → ℕ → W → W × ℕ
  read_header_type id offset w =
      let (w', header_type, n) =
        device_read id junk 0 1 (device_seek id (pos (offset + 0x0E)) seek_set w) in
      (w', header_type 0)

  -- The loop of `pci_test`. `offset` is computed from the address that the round begins with, and
  -- `continue` does not advance the address.
  unfoldable pub test_loop : ℕ → ℕ → ℕ → ℕ → List PciDevice → W → W × List PciDevice
  test_loop id zero i addr devices w = (w, devices)
  test_loop id (suc left) i addr devices w =
      let (w1, vendor) = read_ids id (addr <<< 8) w in
      let pushed = pci_push id devices addr in
      let (w2, header_type) = read_header_type id (addr <<< 8) w1 in
      elim (vendor == 0xFFFF) [
        | true ↦ test_loop id left (i + 1) addr devices w1
        | false ↦ elim (i == 0) [
          | false ↦ test_loop id left (i + 1) (u16 (addr + 1)) pushed w1
          | true ↦ elim (leb 0x80 header_type) [
            | false ↦ (w2, pushed)
            | true ↦ test_loop id left (i + 1) (u16 (addr + 1)) pushed w2
          ]
        ]
      ]

  -- `addr & 0xFFF8`
  unfoldable pub pci_test : ℕ → ℕ → List PciDevice → W → W × List PciDevice
  pci_test id addr devices w = test_loop id 8 0 (u16 addr / 8 * 8) devices w

  -- `for (i = 0; i < 8192; i++)`, on the rounds left
  unfoldable pub scan : ℕ → ℕ → ℕ → List PciDevice → W → W × List PciDevice
  scan id zero i devices w = (w, devices)
  scan id (suc left) i devices w =
      let (w', devices') = pci_test id (u16 (i <<< 3)) devices w in scan id left (i + 1) devices' w'

  unfoldable pub is_present : Feature → ℕ → W → Bool
  is_present f id w = not (device_feature id f w == 0)

  -- `none` is an early `return 0`, else the devices of the new tree.
  unfoldable pub pci_init : Memory → ℕ → ℤ → W → W × Option (List PciDevice)
  pci_init mem name (negsuc n) w = (w, none)
  pci_init mem name (pos id) w =
      if not (is_present feature_present id w)
      then (w, none)
      else if not (is_zero (memcmp mem name (of_list (codes "$pci")) 0 4))
      then (w, none)
      else if is_present feature_write id w
          && is_present feature_read id w
          && is_present feature_seek id w
      then (let (w', devices) = scan id 8192 0 [] w in (w', some devices))
      else (w, none)
