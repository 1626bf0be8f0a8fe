-- ===== src/Api/Laws.antt =====
-- Where a seek of a device with a 32-bit size goes, in integers.
use nop.Base.{ℕ, ◌+◌, ◌^◌, ◌≤◌, ◌<◌, ◌≡◌, arith, min}
use nop.Base.Int.{ℤ, pos, negsuc, sub_ℕ}
use nop.Api.{SeekMode, seek_set, seek_end, seek_cur, seek, moved, clamp}

-- The position that the offset counts from.
abbrev pub base : ℕ → ℕ → SeekMode → ℕ
base size current seek_set = 0
base size current seek_end = size
base size current seek_cur = current

abbrev pub target : ℕ → ℤ → ℤ
target b (pos n) = pos (b + n)
target b (negsuc n) = sub_ℕ b (n + 1)

abbrev pub magnitude : ℤ → ℕ
magnitude (pos n) = n
magnitude (negsuc n) = n

abbrev pub clamped : ℕ → ℤ → ℕ
clamped size (pos n) = min n size
clamped size (negsuc n) = 0

pub seek-clamped :
    (size current : ℕ) (offset : ℤ) (mode : SeekMode)
    → size < 2 ^ 31
    → current ≤ size
    → base size current mode + magnitude offset < 2 ^ 31
    → seek size current offset mode ≡ clamped size (target (base size current mode) offset)
unfolding seek moved clamp
seek-clamped size current (pos n) seek_set s i h = ground arith
seek-clamped size current (pos n) seek_end s i h = ground arith
seek-clamped size current (pos n) seek_cur s i h = ground arith
seek-clamped size current (negsuc n) seek_set s i h = ground arith
seek-clamped size current (negsuc n) seek_end s i h = ground arith
seek-clamped size current (negsuc n) seek_cur s i h = ground arith

-- A seek never leaves the device, whatever the offset.
pub seek-le :
    (size current : ℕ) (offset : ℤ) (mode : SeekMode) → seek size current offset mode ≤ size
unfolding seek clamp
seek-le size current offset mode = ground arith
