-- ===== src/Page.antt =====
-- nop/page.c: the page bitmap and its first-fit allocator. The bitmap is the byte memory behind
-- `page_bitmap`, indexed from 0; `log` calls are left out. Page numbers and byte counts are `size_t`.
mod Bitmap
pub mod Mark
pub mod FirstFit
pub mod Laws
mod Examples
use nop.Base.{
  ℕ, zero, suc, ◌+◌, ◌-◌, ◌*◌, ◌/◌, ◌%◌, ◌^◌, bit_and, bit_or, Bool, true, false, not, ◌&&◌, Option,
  none, some, ltb, leb, ◌==◌, if◌then◌else◌, u8, u32, sub32, not32, ◌<<<◌, ◌>>>◌, Memory, write,
}

-- nop/arch/i386/values.h
abbrev pub page_count : ℕ
page_count = 1048576

abbrev pub page_size : ℕ
page_size = 4096

-- nop/page.h
abbrev pub page_free_mark : ℕ
page_free_mark = 0

abbrev pub page_used_mark : ℕ
page_used_mark = 1

-- `page_bitmap[p >> 3] & (1 << (p & 7))`, as a test
unfoldable pub is_used : Memory → ℕ → Bool
is_used bm p = not (bit_and (bm (p >>> 3)) (1 <<< (p % 8)) == 0)

-- The `if (value) … else …` on one page of the first two loops.
unfoldable pub set_page : Memory → ℕ → ℕ → Memory
set_page bm p value = write bm (p >>> 3) (
    if value == 0
    then u8 (bit_and (bm (p >>> 3)) (not32 (1 <<< (p % 8))))
    else u8 (bit_or (bm (p >>> 3)) (1 <<< (p % 8))))

-- The three loops of `page_mark`. The first two end within 8 rounds, the third within `end - start`.
unfoldable pub mark_up : ℕ → Memory → ℕ → ℕ → ℕ → Memory × ℕ
mark_up zero bm start end value = (bm, start)
mark_up (suc fuel) bm start end value = elim (not (start % 8 == 0) && ltb start end) [
  | true ↦ mark_up fuel (set_page bm start value) (start + 1) end value
  | false ↦ (bm, start)
]

unfoldable pub mark_down : ℕ → Memory → ℕ → ℕ → ℕ → Memory × ℕ
mark_down zero bm start end value = (bm, end)
mark_down (suc fuel) bm start end value = elim (not (end % 8 == 0) && ltb start end) [
  | true ↦ mark_down fuel (set_page bm (end - 1) value) start (end - 1) value
  | false ↦ (bm, end)
]

unfoldable pub mark_bytes : ℕ → Memory → ℕ → ℕ → ℕ → Memory
mark_bytes zero bm start end value = bm
mark_bytes (suc fuel) bm start end value = elim (ltb start end) [
  | true ↦
      mark_bytes fuel (write bm (start >>> 3) (if value == 0 then 0x00 else 0xff)) (start + 8) end
        value
  | false ↦ bm
]

unfoldable pub page_mark : Memory → ℕ → ℕ → ℕ → Memory
page_mark bm start end value =
    let (bm, start) = mark_up 8 bm start end value in
    let (bm, end) = mark_down 8 bm start end value in mark_bytes (end - start) bm start end value

unfoldable pub page_init : Memory → Memory
page_init bm = page_mark bm 0 page_count page_used_mark

-- The inner loop of `page_alloc`, on the `n - free_pages` rounds that it may still make.
unfoldable pub count_free : Memory → ℕ → ℕ → ℕ → ℕ × ℕ
count_free bm zero free_pages i = (free_pages, i)
count_free bm (suc left) free_pages i = elim (is_used bm i) [
  | true ↦ (free_pages, i)
  | false ↦ count_free bm left (free_pages + 1) (u32 (i + 1))
]

pub data Outcome : Type 0 where
  found : ℕ → Outcome
  exhausted : Outcome
  out_of_fuel : Outcome

-- The `for` loop of `page_alloc`; `step` is in pages.
unfoldable pub search_run : ℕ → Memory → ℕ → ℕ → ℕ → Outcome
search_run zero bm n step i = out_of_fuel
search_run (suc fuel) bm n step i =
    let (free_pages, i') = count_free bm n 0 i in
    let rest = search_run fuel bm n step (u32 (i' + step)) in
    if leb i (sub32 page_count n) then (if leb n free_pages then found i else rest) else exhausted

unfoldable pub finish_alloc : Memory → ℕ → Outcome → Option (ℕ × Memory)
finish_alloc bm n (found s) =
    some (u32 (s * page_size), page_mark bm s (u32 (s + n)) page_used_mark)
finish_alloc bm n exhausted = some (0, bm)
finish_alloc bm n out_of_fuel = none

-- The pointer returned (0 is NULL) and the bitmap. A round moves on by at least one page if `step` is
-- not 0, so `page_count + 2` rounds are enough; `none` is a loop that does not end.
unfoldable pub page_alloc : Memory → ℕ → ℕ → Option (ℕ × Memory)
page_alloc bm n step =
    finish_alloc bm n
      (search_run (page_count + 2) bm n (u32 (step + (page_size - 1)) / page_size) 0)

unfoldable pub page_free : Memory → ℕ → ℕ → Memory
page_free bm ptr n =
    let start = ptr / page_size in page_mark bm start (u32 (start + n)) page_free_mark
