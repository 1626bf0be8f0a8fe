-- ===== src/Start/Heap.antt =====
-- nop/start.c: the page functions that the heap gets.
use nop.Base.{
  ℕ, ◌+◌, ◌*◌, ◌/◌, ◌%◌, ◌^◌, ◌<◌, ◌≤◌, ◌≡◌, ◌≢◌, arith, u32, Memory, IsBytes, Option, some,
}
use nop.Page.{page_size, is_used}
use nop.Page.Laws.{IsAllocated, page_alloc-IsAllocated, page_free-page_alloc}
use nop.Start.{page_need, alloc_page_alloc, alloc_page_free}

page_need-IsLeast :
    (n : ℕ)
    → n + page_size ≤ 2 ^ 32
    → (n ≤ page_need n * page_size) × (page_need n * page_size < n + page_size)
unfolding page_need
page_need-IsLeast n fits = (omega arith, omega arith)

-- What the heap gets for a request: its size goes up to the next page boundary, and it gets the first run
-- of that many free pages, which is marked, or NULL if there is none.
pub record IsGiven (bm : Memory) (n : ℕ) (out : ℕ × Option (ℕ × Memory)) : Type 0 where
  pub enough : n ≤ out.0
  pub least : out.0 < n + page_size
  pub whole : out.0 % page_size ≡ 0
  pub pages : IsAllocated bm (out.0 / page_size) out.1

-- A request of at least one byte, which ends a page below the end of the addresses, goes up to the next
-- page boundary, and gets the first run of free pages of that size, or NULL if there is none.
pub alloc_page_alloc-IsGiven :
    (bm : Memory) (n : ℕ)
    → IsBytes bm
    → 0 < n
    → n + page_size ≤ 2 ^ 32
    → IsGiven bm n (alloc_page_alloc bm n)
unfolding alloc_page_alloc
alloc_page_alloc-IsGiven bm n bytes pos fits =
    let need = page_need-IsLeast n fits in
    let size : u32 (page_need n * page_size) ≡ page_need n * page_size = omega (arith, need.1) in
    let count : page_need n * page_size / page_size ≡ page_need n = omega arith in
    record {
      enough = omega (arith, need.0, size);
      least = omega (arith, need.1, size);
      whole = omega (arith, size);
      pages =
          rw (size, count)
            (page_alloc-IsAllocated bm (page_need n) 1 bytes (omega (arith, need.0))
              (omega (arith, need.1)) (omega arith) (omega arith));
    }

-- alloc_page_free of a pointer that alloc_page_alloc gave, with the size that was asked for, gives every
-- page back.
pub alloc_page_free-alloc_page_alloc :
    (bm : Memory) (n ptr : ℕ) (after : Memory) (q : ℕ)
    → IsBytes bm
    → 0 < n
    → n + page_size ≤ 2 ^ 32
    → (alloc_page_alloc bm n).1 ≡ some (ptr, after)
    → ptr ≢ 0
    → is_used (alloc_page_free after ptr n) q ≡ is_used bm q
unfolding alloc_page_alloc alloc_page_free
alloc_page_free-alloc_page_alloc bm n ptr after q bytes pos fits e ne =
    let need = page_need-IsLeast n fits in
    page_free-page_alloc bm (page_need n) 1 ptr after q bytes (omega (arith, need.0))
      (omega (arith, need.1)) (omega arith) (omega arith) e ne
