-- ===== src/Start/Examples.antt =====
-- nop/start.c: the laws at small blocks and bitmaps.
use nop.Base.{◌+◌, ◌*◌, ◌≡◌, refl, arith, inl, ltb, if◌then◌else◌, List, [], ◌∷◌, Memory, IsBytes}
use nop.Page.{is_used, count_free, search_run, finish_alloc, page_mark, page_used_mark, page_alloc}
use nop.Start.{
  Block, reserve, keep_block, start_pages, page_need, alloc_page_alloc, alloc_page_free,
}
use nop.Start.Pages.{IsReady, start_pages-IsReady}
use nop.Start.Heap.{alloc_page_free-alloc_page_alloc}

-- Nothing is marked before the set-up.
abbrev blank : Memory
blank a = 0

blank-IsBytes : IsBytes blank
blank-IsBytes a = omega arith

abbrev two_blocks : List Block
two_blocks =
    record { start = 0x1800; size = 0x2000 } ∷ record { start = 0x100800; size = 0x80000 } ∷ []

start_pages-IsReady_example : IsReady two_blocks (0x100800 + 0x60000) (start_pages two_blocks blank)
start_pages-IsReady_example =
    start_pages-IsReady two_blocks blank (0x100800 + 0x60000) (omega arith, (omega arith, tt))
      ((inl (omega arith), tt), (tt, tt)) blank-IsBytes (unfold reserve keep_block in refl)

-- The first eight pages are used.
abbrev low_used : Memory
low_used a = if ltb a 1 then 0xff else 0

low_used-IsBytes : IsBytes low_used
low_used-IsBytes a = ground arith

alloc_page_free-alloc_page_alloc_example :
    is_used (alloc_page_free (page_mark low_used 8 10 page_used_mark) (8 * 4096) 5000) 9
    ≡ is_used low_used 9
alloc_page_free-alloc_page_alloc_example =
    alloc_page_free-alloc_page_alloc low_used 5000 (8 * 4096)
      (page_mark low_used 8 10 page_used_mark) 9 low_used-IsBytes (omega arith) (omega arith)
      (unfold alloc_page_alloc page_need page_alloc search_run count_free finish_alloc is_used in
        refl)
      (omega arith)
