-- ===== src/Ahci.antt =====
-- nop/tasks/ahci.c: the disk as a device: its features, where its requests are cut, and its position.
mod Examples
use nop.Base.{
  ℕ, ◌+◌, ◌-◌, ◌*◌, ◌/◌, ◌%◌, ◌^◌, Bool, true, false, Memory, u32, u64, ltb, leb, ◌==◌,
  if◌then◌else◌, ◌<<<◌, ◌>>>◌,
}
use nop.Base.Int.{ℤ, pos, negsuc}
use nop.Api.{
  Feature, feature_present, feature_write, feature_read, feature_seek, feature_page_size, SeekMode,
  seek_set, seek_end, seek_cur,
}

pub record Ahci : Type 0 where
  pub can_lba48 : Bool
  pub sector_width : ℕ
  pub count : ℕ
  pub offset : ℕ

abbrev pub sector_size : Ahci → ℕ
sector_size a = 1 <<< a.sector_width

unfoldable pub ahci_device_feature : Ahci → Feature → ℕ
ahci_device_feature a feature_present = 1
ahci_device_feature a feature_write = 1
ahci_device_feature a feature_read = 1
ahci_device_feature a feature_seek = 1
ahci_device_feature a feature_page_size = sector_size a
ahci_device_feature a feature = 0

-- `n`, cut to the rest of the disk; `count << sector_width` is a `uint64_t`
unfoldable pub cut : Ahci → ℕ → ℕ
cut a n =
    let left = u64 (u64 (a.count <<< a.sector_width) + 2 ^ 64 - a.offset) in
    if ltb left n then u32 left else n

-- The seek, as on a 32-bit device but for the width: patterns of 64 bits.
abbrev pub to_int64 : ℤ → ℕ
to_int64 (pos n) = n % 2 ^ 64
to_int64 (negsuc n) = 2 ^ 64 - 1 - n % 2 ^ 64

unfoldable pub sought : ℕ → ℕ → ℤ → SeekMode → ℕ
sought size current offset seek_set = to_int64 offset
sought size current offset seek_end = u64 (to_int64 offset + size)
sought size current offset seek_cur = u64 (current + to_int64 offset)

unfoldable pub ahci_device_seek : Ahci → ℤ → SeekMode → Ahci
ahci_device_seek a offset mode =
    let size = u64 (a.count <<< a.sector_width) in
    let current = sought size a.offset offset mode in
    record a {
      offset = if leb (2 ^ 63) current then 0 else if ltb size current then size else current;
    }

unfoldable pub ahci_device_tell : Ahci → ℕ
ahci_device_tell a = a.offset
