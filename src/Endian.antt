-- ===== src/Endian.antt =====
-- lib/endian.c: words read in little- and big-endian order on the little-endian i386 host.
-- A word is passed as its value; a signed one as its two's complement pattern, on which the casts
-- to the signed types do nothing. `byte n i` is `bytes[i]` of the argument's storage.
pub mod Laws
mod Examples
use nop.Base.{ℕ, ◌+◌, ◌*◌, ◌/◌, ◌%◌, ◌^◌, bit_or, u8, u16, u32, u64, ◌<<<◌, ◌>>>◌}

abbrev pub byte : ℕ → ℕ → ℕ
byte n i = u8 (n >>> (8 * i))

pub int16le_to_host : ℕ → ℕ
int16le_to_host n = u16 (bit_or (u16 (byte n 0 <<< 0)) (u16 (byte n 1 <<< 8)))

pub int16be_to_host : ℕ → ℕ
int16be_to_host n = u16 (bit_or (u16 (byte n 0 <<< 8)) (u16 (byte n 1 <<< 0)))

unfoldable pub int32le_to_host : ℕ → ℕ
int32le_to_host n = u32 (
    bit_or (bit_or (bit_or (u32 (byte n 0 <<< 0)) (u32 (byte n 1 <<< 8))) (u32 (byte n 2 <<< 16)))
      (u32 (byte n 3 <<< 24)))

pub int32be_to_host : ℕ → ℕ
int32be_to_host n = u32 (
    bit_or (bit_or (bit_or (u32 (byte n 0 <<< 24)) (u32 (byte n 1 <<< 16))) (u32 (byte n 2 <<< 8)))
      (u32 (byte n 3 <<< 0)))

pub int64le_to_host : ℕ → ℕ
int64le_to_host n = u64 (
    bit_or
      (bit_or
        (bit_or
          (bit_or
            (bit_or
              (bit_or (bit_or (u64 (byte n 0 <<< 0)) (u64 (byte n 1 <<< 8)))
                (u64 (byte n 2 <<< 16)))
              (u64 (byte n 3 <<< 24)))
            (u64 (byte n 4 <<< 32)))
          (u64 (byte n 5 <<< 40)))
        (u64 (byte n 6 <<< 48)))
      (u64 (byte n 7 <<< 56)))

pub int64be_to_host : ℕ → ℕ
int64be_to_host n = u64 (
    bit_or
      (bit_or
        (bit_or
          (bit_or
            (bit_or
              (bit_or (bit_or (u64 (byte n 0 <<< 56)) (u64 (byte n 1 <<< 48)))
                (u64 (byte n 2 <<< 40)))
              (u64 (byte n 3 <<< 32)))
            (u64 (byte n 4 <<< 24)))
          (u64 (byte n 5 <<< 16)))
        (u64 (byte n 6 <<< 8)))
      (u64 (byte n 7 <<< 0)))

pub uint16le_to_host : ℕ → ℕ
uint16le_to_host n = bit_or (u16 (byte n 0 <<< 0)) (u16 (byte n 1 <<< 8))

pub uint16be_to_host : ℕ → ℕ
uint16be_to_host n = bit_or (u16 (byte n 0 <<< 8)) (u16 (byte n 1 <<< 0))

pub uint32le_to_host : ℕ → ℕ
uint32le_to_host n =
    bit_or (bit_or (bit_or (u32 (byte n 0 <<< 0)) (u32 (byte n 1 <<< 8))) (u32 (byte n 2 <<< 16)))
      (u32 (byte n 3 <<< 24))

pub uint32be_to_host : ℕ → ℕ
uint32be_to_host n =
    bit_or (bit_or (bit_or (u32 (byte n 0 <<< 24)) (u32 (byte n 1 <<< 16))) (u32 (byte n 2 <<< 8)))
      (u32 (byte n 3 <<< 0))

pub uint64le_to_host : ℕ → ℕ
uint64le_to_host n =
    bit_or
      (bit_or
        (bit_or
          (bit_or
            (bit_or
              (bit_or (bit_or (u64 (byte n 0 <<< 0)) (u64 (byte n 1 <<< 8)))
                (u64 (byte n 2 <<< 16)))
              (u64 (byte n 3 <<< 24)))
            (u64 (byte n 4 <<< 32)))
          (u64 (byte n 5 <<< 40)))
        (u64 (byte n 6 <<< 48)))
      (u64 (byte n 7 <<< 56))

pub uint64be_to_host : ℕ → ℕ
uint64be_to_host n =
    bit_or
      (bit_or
        (bit_or
          (bit_or
            (bit_or
              (bit_or (bit_or (u64 (byte n 0 <<< 56)) (u64 (byte n 1 <<< 48)))
                (u64 (byte n 2 <<< 40)))
              (u64 (byte n 3 <<< 32)))
            (u64 (byte n 4 <<< 24)))
          (u64 (byte n 5 <<< 16)))
        (u64 (byte n 6 <<< 8)))
      (u64 (byte n 7 <<< 0))
