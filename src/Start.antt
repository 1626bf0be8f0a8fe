-- ===== src/Start.antt =====
-- nop/start.c: how the memory that is free becomes the page bitmap, and the page functions that the heap
-- gets. The array of blocks is a list; the bitmap is the memory behind `page_bitmap`, as in Page.
pub mod Pages
pub mod Heap
mod Examples
use nop.Base.{
  ℕ, ◌+◌, ◌-◌, ◌*◌, ◌/◌, Bool, Option, none, some, List, [], ◌∷◌, leb, if◌then◌else◌, u32, Memory,
}
use nop.Page.{page_count, page_size, page_free_mark, page_init, page_mark, page_alloc, page_free}

pub record Block : Type 0 where
  pub start : ℕ
  pub size : ℕ

-- nop/page.h
abbrev pub page_bitmap_size : ℕ
page_bitmap_size = page_count / 8

-- What the first loop finds: the place of the bitmap, none if no block is large enough, and the blocks.
pub record Reserved : Type 0 where
  pub bitmap : Option ℕ
  pub blocks : List Block

unfoldable pub cut_block : Block → Block
cut_block b = record { start = b.start; size = b.size - page_bitmap_size }

unfoldable pub keep_block : Block → Reserved → Reserved
keep_block b r = record { bitmap = r.bitmap; blocks = b ∷ r.blocks }

-- The bitmap takes the end of the first block that is large enough.
unfoldable pub reserve : List Block → Reserved
reserve [] = record { bitmap = none; blocks = [] }
reserve (b ∷ rest) =
    let later = reserve rest in
    if leb page_bitmap_size b.size
    then record {
      bitmap = some (b.start + (b.size - page_bitmap_size));
      blocks = cut_block b ∷ rest;
    }
    else keep_block b later

-- The second loop.
unfoldable pub mark_blocks : List Block → Memory → Memory
mark_blocks [] bm = bm
mark_blocks (b ∷ rest) bm =
    let start = u32 (b.start + (page_size - 1)) / page_size in
    let end = u32 (b.start + b.size) / page_size in
    mark_blocks rest (page_mark bm start end page_free_mark)

-- The set-up of the page bitmap in `start`.
unfoldable pub start_pages : List Block → Memory → Memory
start_pages blocks bm =
    let r = reserve blocks in
    mark_blocks r.blocks (elim r.bitmap [ some at ↦ page_init bm | none ↦ bm ])

unfoldable pub page_need : ℕ → ℕ
page_need n = u32 (n + (page_size - 1)) / page_size

-- The size in bytes that goes back through the pointer, and what `page_alloc` answers.
unfoldable pub alloc_page_alloc : Memory → ℕ → ℕ × Option (ℕ × Memory)
alloc_page_alloc bm n = (u32 (page_need n * page_size), page_alloc bm (page_need n) 1)

unfoldable pub alloc_page_free : Memory → ℕ → ℕ → Memory
alloc_page_free bm ptr n = page_free bm ptr (page_need n)
