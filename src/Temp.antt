-- ===== src/Temp.antt =====
-- nop/temp.c: a device kept in a block of memory. `bytes` stands for `data`, a memory of its own whose address 0 is
-- `temp->data`; the caller's buffer is a memory too.
pub mod Laws
mod Examples
use nop.Base.{
  ℕ, ◌+◌, ◌-◌, ◌%◌, ◌^◌, Bool, Option, Memory, u32, sub32, negative32, ltb, leb, if◌then◌else◌,
}
use nop.Base.Int.{ℤ, pos, negsuc}
use nop.Api.{Feature, SeekMode, seek}
use nop.CString.{memcpy_from}

pub record Temp : Type 0 where
  pub size : ℕ
  pub offset : ℕ
  pub bytes : Memory

-- The last operand of `||` is the constant 5 itself, so the test always holds.
unfoldable pub feature : Feature → ℕ
feature f = 1

-- `if (n > size - offset) n = size - offset`
unfoldable pub clip : Temp → ℕ → ℕ
clip t n = if ltb (sub32 t.size t.offset) n then sub32 t.size t.offset else n

-- `n` bytes of `mem` from `ptr` on.
unfoldable pub device_write : Temp → Memory → ℕ → ℕ → Temp × ℕ
device_write t mem ptr n =
    let n' = clip t n in
    (record t { bytes = memcpy_from mem t.bytes t.offset ptr n'; offset = u32 (t.offset + n') }, n')

unfoldable pub device_read : Temp → Memory → ℕ → ℕ → (Temp × Memory) × ℕ
device_read t mem ptr n =
    let n' = clip t n in
    ((record t { offset = u32 (t.offset + n') }, memcpy_from t.bytes mem ptr t.offset n'), n')

unfoldable pub device_seek : Temp → ℤ → SeekMode → Temp
device_seek t offset mode = record t { offset = seek t.size t.offset offset mode }

unfoldable pub device_tell : Temp → ℕ
device_tell t = t.offset
