-- ===== src/Api.antt =====
-- include/nop/device.h: the features and the seek modes of a device, and the seek computation that the
-- devices with a 32-bit size each write out. An `intmax_t` is an integer, and a `ssize_t` the two's
-- complement pattern of one.
pub mod Laws
use nop.Base.{ℕ, ◌+◌, ◌-◌, ◌%◌, ◌^◌, u32, negative32, ltb, if◌then◌else◌}
use nop.Base.Int.{ℤ, pos, negsuc}

pub data Feature : Type 0 where
  feature_present : Feature
  feature_write : Feature
  feature_read : Feature
  feature_seek : Feature
  feature_trim : Feature
  feature_page_size : Feature
  feature_commit : Feature

pub data SeekMode : Type 0 where
  seek_set : SeekMode
  seek_end : SeekMode
  seek_cur : SeekMode

-- An `intmax_t` cut to 32 bits.
abbrev pub to_ssize : ℤ → ℕ
to_ssize (pos n) = n % 2 ^ 32
to_ssize (negsuc n) = 2 ^ 32 - 1 - n % 2 ^ 32

-- `current`, from the size and the present offset.
unfoldable pub moved : ℕ → ℕ → ℤ → SeekMode → ℕ
moved size current offset seek_set = to_ssize offset
moved size current offset seek_end = u32 (to_ssize offset + size)
moved size current offset seek_cur = u32 (current + to_ssize offset)

unfoldable pub clamp : ℕ → ℕ → ℕ
clamp size current = if negative32 current then 0 else if ltb size current then size else current

unfoldable pub seek : ℕ → ℕ → ℤ → SeekMode → ℕ
seek size current offset mode = clamp size (moved size current offset mode)
