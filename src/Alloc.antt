-- ===== src/Alloc.antt =====
-- lib/alloc.c: the kernel heap in byte memory. A block is its next pointer, its size and its data; the
-- data is a row of chunks, each behind a header that holds its size, negative while it is used. Words
-- are 32 bits; `page_alloc` is the callback that `alloc_init` was given, on a state `P` of its own:
-- it returns the memory it found (0 for NULL) and its size. `page_free` is never called.
pub mod Chunks
pub mod Scan
pub mod Blocks
pub mod Laws
pub mod Free
mod Examples
use nop.Base.{
  ℕ, zero, suc, ◌+◌, ◌-◌, ◌/◌, ◌%◌, ◌^◌, Bool, true, false, Option, none, some, ltb, leb, ◌==◌,
  if◌then◌else◌, Memory, u32, sub32, negative32,
}
use nop.Base.Dwords.{load32, store32}
use nop.CString.{memcpy, address_space}

abbrev pub block_bytes : ℕ
block_bytes = 8

abbrev pub header_bytes : ℕ
header_bytes = 4

-- `a <= b` of two `ssize_t` patterns
unfoldable pub le_signed : ℕ → ℕ → Bool
le_signed a b = leb (u32 (a + 2 ^ 31)) (u32 (b + 2 ^ 31))

unfoldable pub abs_size : ℕ → ℕ
abs_size size = if negative32 size then sub32 0 size else size

-- The result of a scan: a pointer with the memory it leaves, NULL, or a loop that does not end.
pub data Search : Type 0 where
  hit : ℕ → Memory → Search
  miss : Search
  out_of_fuel : Search

-- A chunk that is large enough is taken, whole or in part.
unfoldable pub take_chunk : Memory → ℕ → ℕ → Memory
take_chunk mem n at =
    let size = load32 mem at in
    if leb size (u32 (n + header_bytes))
    then store32 mem at (sub32 0 size)
    else store32 (store32 mem (at + header_bytes + n) (sub32 (sub32 size header_bytes) n)) at
        (sub32 0 n)

-- The inner loop of `malloc_once`, on the block whose data begin at `start`.
unfoldable pub scan_chunks : ℕ → Memory → ℕ → ℕ → ℕ → ℕ → Search
scan_chunks zero mem n start size at = out_of_fuel
scan_chunks (suc fuel) mem n start size at = elim (ltb (at - start) size) [
  | false ↦ miss
  | true ↦ elim (le_signed n (load32 mem at)) [
    | true ↦ hit (at + header_bytes) (take_chunk mem n at)
    | false ↦ scan_chunks fuel mem n start size (at + (header_bytes + abs_size (load32 mem at)))
  ]
]

-- The outer loop. A round of the inner one moves on by four bytes at least.
unfoldable pub scan_blocks : ℕ → Memory → ℕ → ℕ → Search
scan_blocks zero mem n block = out_of_fuel
scan_blocks (suc fuel) mem n block = elim (block == 0) [
  | true ↦ miss
  | false ↦
      elim (scan_chunks (load32 mem (block + 4) + 1) mem n (block + block_bytes)
        (load32 mem (block + 4)) (block + block_bytes)) [
          | hit ptr mem' ↦ hit ptr mem'
          | miss ↦ scan_blocks fuel mem n (load32 mem block)
          | out_of_fuel ↦ out_of_fuel
        ]
]

pub record Heap (P : Type 0) : Type 0 where
  pub mem : Memory
  pub block_root : ℕ
  pub block_min : ℕ
  pub pages : P

unfoldable pub malloc_once : {P : Type 0} → ℕ → Heap P → Search
malloc_once n h = scan_blocks address_space h.mem n h.block_root

unfoldable pub free : {P : Type 0} → ℕ → Heap P → Heap P
free ptr h =
    if ptr == 0
    then h
    else if negative32 (load32 h.mem (ptr - header_bytes))
    then record h {
      mem = store32 h.mem (ptr - header_bytes) (sub32 0 (load32 h.mem (ptr - header_bytes)));
    }
    else h

-- `alloc_tidy` is empty in the source.
module _ {P : Type 0} (page_alloc : ℕ → P → P × ℕ × ℕ) where
  unfoldable pub alloc_block : ℕ → Heap P → Heap P
  alloc_block n h =
      let (pages, block, n') = page_alloc (u32 (n + (block_bytes + header_bytes))) h.pages in
      let mem1 = store32 h.mem block h.block_root in
      let mem2 = store32 mem1 (block + 4) (sub32 n' block_bytes) in
      let mem3 = store32 mem2 (block + block_bytes) (sub32 (sub32 n' block_bytes) header_bytes) in
      record h { mem = mem3; block_root = block; pages = pages }

  -- The pointer that the last call of `malloc_once` gives; `none` is a loop that does not end.
  unfoldable pub finish : Heap P → Search → Option (ℕ × Heap P)
  finish h (hit ptr mem) = some (ptr, record h { mem = mem })
  finish h miss = some (0, h)
  finish h out_of_fuel = none

  unfoldable pub block_size : ℕ → Heap P → ℕ
  block_size n h = let size = u32 (n + n / 4) in if ltb size h.block_min then h.block_min else size

  -- The second `malloc_once` runs on the same heap as the first, since `alloc_tidy` does nothing.
  unfoldable pub malloc : ℕ → Heap P → Option (ℕ × Heap P)
  malloc n h = elim (malloc_once n h) [
    | hit ptr mem ↦ some (ptr, record h { mem = mem })
    | out_of_fuel ↦ none
    | miss ↦ elim (malloc_once n h) [
      | hit ptr mem ↦ some (ptr, record h { mem = mem })
      | out_of_fuel ↦ none
      | miss ↦ let h' = alloc_block (block_size n h) h in finish h' (malloc_once n h')
    ]
  ]

  unfoldable pub copy_and_free : ℕ → ℕ → ℕ → Heap P → Heap P
  copy_and_free new_ptr ptr n h =
      let size = load32 h.mem (ptr - header_bytes) in
      if ptr == 0
      then h
      else if negative32 size
      then free ptr (record h {
        mem = memcpy h.mem new_ptr ptr (if ltb n (sub32 0 size) then n else sub32 0 size);
      })
      else h

  unfoldable pub realloc : ℕ → ℕ → Heap P → Option (ℕ × Heap P)
  realloc ptr n h = elim (malloc n h) [
    | none ↦ none
    | some (new_ptr, h') ↦ some (new_ptr, copy_and_free new_ptr ptr n h')
  ]
