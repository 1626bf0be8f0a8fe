-- ===== src/PciSpace.antt =====
-- nop/arch/i386/tasks/pci.c: the PCI configuration space as a device, byte by byte over a port of
-- 32-bit words. `outd` and `ind` are assembly, and parameters on the state `W` of the machine; the
-- buffer is a memory of its own, and the device's state is its offset. The value that the two
-- functions return is left out: they have no `return`.
pub mod Address
pub mod Read
pub mod Write
mod Examples
use nop.Base.{
  ℕ, zero, suc, ◌+◌, ◌-◌, ◌*◌, ◌/◌, ◌%◌, ◌^◌, bit_and, bit_or, Bool, true, false, not, ltb, leb,
  ◌==◌, if◌then◌else◌, Memory, write, u8, u16, u32, sub32, ◌<<<◌, ◌>>>◌,
}
use nop.Base.Int.{ℤ}
use nop.Base.Dwords.{load32, store32}
use nop.Api.{
  Feature, feature_present, feature_write, feature_read, feature_seek, feature_page_size, SeekMode,
  seek,
}
use nop.Endian.{byte}

unfoldable pub pci_device_feature : Feature → ℕ
pci_device_feature feature_present = 1
pci_device_feature feature_write = 1
pci_device_feature feature_read = 1
pci_device_feature feature_seek = 1
pci_device_feature feature_page_size = 4
pci_device_feature feature = 0

-- `0x80000000 | ((uint32_t)(addr) << 8) | (uint32_t)(offset)`, the arguments cut to their types
unfoldable pub config_address : ℕ → ℕ → ℕ
config_address addr offset = bit_or (bit_or 0x80000000 (u16 addr <<< 8)) (bit_and (u8 offset) 0xFC)

abbrev pub size : ℕ
size = 0x01000000

unfoldable pub clip : ℕ → ℕ → ℕ
clip offset n = if ltb (sub32 size offset) n then sub32 size offset else n

-- What is left of a transfer.
pub record Transfer : Type 0 where
  pub offset : ℕ
  pub ptr : ℕ
  pub n : ℕ

-- `while (n && (offset & 3))` of the write; `bytes` is the storage of `value`.
unfoldable pub fill_head : ℕ → Memory → Memory → ℕ → ℕ → Memory × Transfer
fill_head zero src bytes offset ptr = (bytes, record { offset = offset; ptr = ptr; n = 0 })
fill_head (suc n) src bytes offset ptr = elim (offset % 4 == 0) [
  | true ↦ (bytes, record { offset = offset; ptr = ptr; n = suc n })
  | false ↦ fill_head n src (write bytes (offset % 4) (src ptr)) (offset + 1) (ptr + 1)
]

-- `while (n)` of the write
unfoldable pub fill_tail : ℕ → Memory → Memory → ℕ → ℕ → Memory × Transfer
fill_tail zero src bytes offset ptr = (bytes, record { offset = offset; ptr = ptr; n = 0 })
fill_tail (suc n) src bytes offset ptr =
    fill_tail n src (write bytes (offset % 4) (src ptr)) (offset + 1) (ptr + 1)

-- The same two loops of the read, which move bytes out of `value` to the buffer.
unfoldable pub take_head : ℕ → ℕ → Memory → ℕ → ℕ → Memory × Transfer
take_head zero value dst offset ptr = (dst, record { offset = offset; ptr = ptr; n = 0 })
take_head (suc n) value dst offset ptr = elim (offset % 4 == 0) [
  | true ↦ (dst, record { offset = offset; ptr = ptr; n = suc n })
  | false ↦ take_head n value (write dst ptr (byte value (offset % 4))) (offset + 1) (ptr + 1)
]

unfoldable pub take_tail : ℕ → ℕ → Memory → ℕ → ℕ → Memory × Transfer
take_tail zero value dst offset ptr = (dst, record { offset = offset; ptr = ptr; n = 0 })
take_tail (suc n) value dst offset ptr =
    take_tail n value (write dst ptr (byte value (offset % 4))) (offset + 1) (ptr + 1)

module _ {W : Type 0} (outd : ℕ → ℕ → W → W) (ind : ℕ → W → W × ℕ) where
  unfoldable pub pci_dword_write : ℕ → ℕ → ℕ → W → W
  pci_dword_write addr offset value w =
      outd value 0x0CFC (outd (config_address addr offset) 0x0CF8 w)

  unfoldable pub pci_dword_read : ℕ → ℕ → W → W × ℕ
  pci_dword_read addr offset w = ind 0x0CFC (outd (config_address addr offset) 0x0CF8 w)

  unfoldable pub write_head : Memory → Transfer → W → W × Transfer
  write_head src t w =
      if t.offset % 4 == 0
      then (w, t)
      else (let (w', value) = pci_dword_read (t.offset >>> 8) t.offset w in
          let (bytes, t') = fill_head t.n src (byte value) t.offset t.ptr in
          (pci_dword_write (t'.offset >>> 8) t'.offset (load32 bytes 0) w', t'))

  -- `while (n >= 4)`, which takes a quarter of `n` rounds
  unfoldable pub write_body : ℕ → Memory → Transfer → W → W × Transfer
  write_body zero src t w = (w, t)
  write_body (suc rounds) src t w =
      write_body rounds src (record { offset = t.offset + 4; ptr = t.ptr + 4; n = t.n - 4 })
        (pci_dword_write (t.offset >>> 8) t.offset (load32 src t.ptr) w)

  unfoldable pub write_tail : Memory → Transfer → W → W × Transfer
  write_tail src t w =
      if t.n % 4 == 0
      then (w, t)
      else (let (w', value) = pci_dword_read (t.offset >>> 8) t.offset w in
          let (bytes, t') = fill_tail t.n src (byte value) t.offset t.ptr in
          (pci_dword_write (t'.offset >>> 8) t'.offset (load32 bytes 0) w', t'))

  -- The new offset and the state of the machine.
  unfoldable pub pci_device_write : ℕ → Memory → ℕ → ℕ → W → W × ℕ
  pci_device_write offset src ptr n w =
      let (w1, t1) = write_head src (record { offset = offset; ptr = ptr; n = clip offset n }) w in
      let (w2, t2) = write_body (t1.n / 4) src t1 w1 in
      let (w3, t3) = write_tail src t2 w2 in (w3, t3.offset)

  unfoldable pub read_head : Memory → Transfer → W → W × Memory × Transfer
  read_head dst t w =
      if t.offset % 4 == 0
      then (w, dst, t)
      else (let (w', value) = pci_dword_read (t.offset >>> 8) t.offset w in
          let (dst', t') = take_head t.n value dst t.offset t.ptr in (w', dst', t'))

  unfoldable pub read_body : ℕ → Memory → Transfer → W → W × Memory × Transfer
  read_body zero dst t w = (w, dst, t)
  read_body (suc rounds) dst t w =
      let (w', value) = pci_dword_read (t.offset >>> 8) t.offset w in
      read_body rounds (store32 dst t.ptr value)
        (record { offset = t.offset + 4; ptr = t.ptr + 4; n = t.n - 4 }) w'

  unfoldable pub read_tail : Memory → Transfer → W → W × Memory × Transfer
  read_tail dst t w =
      if t.n % 4 == 0
      then (w, dst, t)
      else (let (w', value) = pci_dword_read (t.offset >>> 8) t.offset w in
          let (dst', t') = take_tail t.n value dst t.offset t.ptr in (w', dst', t'))

  unfoldable pub pci_device_read : ℕ → Memory → ℕ → ℕ → W → W × Memory × ℕ
  pci_device_read offset dst ptr n w =
      let (w1, dst1, t1) =
        read_head dst (record { offset = offset; ptr = ptr; n = clip offset n }) w in
      let (w2, dst2, t2) = read_body (t1.n / 4) dst1 t1 w1 in
      let (w3, dst3, t3) = read_tail dst2 t2 w2 in (w3, dst3, t3.offset)

unfoldable pub pci_device_seek : ℕ → ℤ → SeekMode → ℕ
pci_device_seek offset = seek size offset

unfoldable pub pci_device_tell : ℕ → ℕ
pci_device_tell offset = offset
