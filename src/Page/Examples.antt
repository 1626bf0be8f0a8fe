-- ===== src/Page/Examples.antt =====
-- nop/page.c: runs, and the laws at a small bitmap.
use nop.Base.{
  ℕ, ◌≡◌, refl, ◌∷◌, [], arith, true, false, Bool, ltb, if◌then◌else◌, ◌*◌, List, map, Option, some,
  Memory, IsBytes,
}
use mathlib.Core.Option
use nop.Page.{
  is_used, set_page, mark_up, mark_down, mark_bytes, page_mark, page_init, count_free, search_run,
  finish_alloc, page_alloc, page_free, page_size, page_used_mark,
}
use nop.Page.Mark.{IsMarked, page_mark-IsMarked}
use nop.Page.Laws.{IsAllocated, page_init-is_used, page_alloc-IsAllocated, page_free-page_alloc}

-- Pages 0 to 7 and 10 are used, the pages after them free.
abbrev bitmap : Memory
bitmap a = if ltb a 1 then 0xff else if ltb a 2 then 0x04 else 0

bitmap-IsBytes : IsBytes bitmap
bitmap-IsBytes a = ground arith

abbrev run : ℕ → ℕ → Option (ℕ × List Bool)
run n step =
    Option.map (λ r. (r.0, map (is_used r.1) (7 ∷ 8 ∷ 9 ∷ 10 ∷ 11 ∷ 12 ∷ 13 ∷ 14 ∷ [])))
      (page_alloc bitmap n step)

three_pages :
    run 3 1 ≡ some (11 * 4096, true ∷ false ∷ false ∷ true ∷ true ∷ true ∷ true ∷ false ∷ [])
unfolding page_alloc search_run count_free finish_alloc page_mark mark_up mark_down mark_bytes
    set_page is_used
three_pages = refl

-- A step of three pages gives no address that it divides: the scan of a run moves `i` as well.
unaligned : Option.map (λ r. r.0) (page_alloc bitmap 3 (3 * 4096)) ≡ some (13 * 4096)
unfolding page_alloc search_run count_free finish_alloc is_used
unaligned = refl

page_mark-IsMarked_example : IsMarked 3 21 1 bitmap (page_mark bitmap 3 21 1)
page_mark-IsMarked_example = page_mark-IsMarked bitmap 3 21 1 bitmap-IsBytes

page_init-is_used_example : is_used (page_init bitmap) 12 ≡ true
page_init-is_used_example = page_init-is_used bitmap 12 bitmap-IsBytes (omega arith)

page_alloc-IsAllocated_example : IsAllocated bitmap 3 (page_alloc bitmap 3 1024)
page_alloc-IsAllocated_example =
    page_alloc-IsAllocated bitmap 3 1024 bitmap-IsBytes (omega arith) (omega arith) (omega arith)
      (omega arith)

-- What `page_alloc bitmap 3 1` leaves.
abbrev after : Memory
after = page_mark bitmap 11 14 page_used_mark

page_free-page_alloc_example : is_used (page_free after (11 * page_size) 3) 12 ≡ is_used bitmap 12
page_free-page_alloc_example =
    page_free-page_alloc bitmap 3 1 (11 * page_size) after 12 bitmap-IsBytes (omega arith)
      (omega arith) (omega arith) (omega arith)
      (unfold page_alloc search_run count_free finish_alloc is_used in refl) (omega arith)
