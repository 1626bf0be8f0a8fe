-- ===== src/Page/Laws.antt =====
-- nop/page.c: allocation is first fit, and freeing undoes it.
use nop.Base.{
  ℕ, ◌+◌, ◌-◌, ◌*◌, ◌/◌, ◌<◌, ◌≤◌, ◌≡◌, ◌≢◌, ap, arith, true, u32, Memory, IsBytes, Option, some,
}
use mathlib.Core.Path.{subst}
use mathlib.Core.Option.{some-injective}
use nop.Base.{sym}
use nop.Page.{
  page_count, page_size, page_used_mark, page_free_mark, is_used, finish_alloc, Outcome, page_alloc,
  page_free, page_init,
}
use nop.Page.Mark.{IsMarked, page_mark-IsMarked}
use nop.Page.FirstFit.{IsFreeRun, IsFirstFit, first, nowhere, search_run-IsFirstFit}

-- `page_init` marks every page of memory as used.
pub page_init-is_used :
    (bm : Memory) (q : ℕ) → IsBytes bm → q < page_count → is_used (page_init bm) q ≡ true
unfolding page_init
page_init-is_used bm q bytes h =
    ground (arith, (page_mark-IsMarked bm 0 page_count page_used_mark bytes).pages q)

-- What `page_alloc` answers: the address of the first run of `n` free pages, with exactly that run
-- marked used, or NULL and the same bitmap when there is no such run.
pub data IsAllocated (bm : Memory) (n : ℕ) : Option (ℕ × Memory) → Type 0 where
  taken :
      (s : ℕ) {ptr : ℕ} {after : Memory}
      → ptr ≡ s * page_size
      → IsFreeRun bm n s
      → ((t : ℕ) → t < s → ¬ (IsFreeRun bm n t))
      → IsMarked s (s + n) page_used_mark bm after
      → IsAllocated bm n (some (ptr, after))
  full : ((t : ℕ) → ¬ (IsFreeRun bm n t)) → IsAllocated bm n (some (0, bm))

finish_alloc-IsAllocated :
    (bm : Memory) (n : ℕ) {o : Outcome}
    → 0 < n
    → IsBytes bm
    → IsFirstFit bm n o
    → IsAllocated bm n (finish_alloc bm n o)
unfolding finish_alloc
finish_alloc-IsAllocated bm n pos bytes (first s run least) =
    let fits : s + n ≤ page_count = run.within in
    let end : u32 (s + n) ≡ s + n = omega arith in
    rw end (taken s (omega arith) run least (page_mark-IsMarked bm s (s + n) page_used_mark bytes))
finish_alloc-IsAllocated bm n pos bytes (nowhere none_fits) = full none_fits

-- With a step of 1 to 4096 bytes and a request of 1 to `page_count` pages, `page_alloc` ends, and is
-- first fit: it returns the lowest run of free pages that is long enough and marks just that run, or
-- NULL, with the bitmap unchanged, if no run is long enough.
pub page_alloc-IsAllocated :
    (bm : Memory) (n step : ℕ)
    → IsBytes bm
    → 0 < n
    → n ≤ page_count
    → 0 < step
    → step ≤ page_size
    → IsAllocated bm n (page_alloc bm n step)
unfolding page_alloc
page_alloc-IsAllocated bm n step bytes pos fits step_pos step_fits =
    let one_page : u32 (step + (page_size - 1)) / page_size ≡ 1 = omega arith in
    rw one_page (
      finish_alloc-IsAllocated bm n pos bytes (
        search_run-IsFirstFit bm n fits (page_count + 2) 0 (omega arith) (omega arith)
          λ t h. elim h [ ]))

module _ (bm : Memory) (n : ℕ) (bytes : IsBytes bm) where
  restored :
      (s : ℕ) {ptr : ℕ} {after : Memory} (q : ℕ)
      → ptr ≡ s * page_size
      → IsFreeRun bm n s
      → IsMarked s (s + n) page_used_mark bm after
      → is_used (page_free after ptr n) q ≡ is_used bm q
  unfolding page_free
  restored s {ptr} {after} q at_run run marked =
      let start : ptr / page_size ≡ s = omega arith in
      let end : u32 (s + n) ≡ s + n = omega (arith, run.within) in
      let freed = page_mark-IsMarked after s (s + n) page_free_mark marked.bytes in
      rw (start, end) (ground (arith, freed.pages q, marked.pages q, run.free q))

  taken_or_null :
      {o : Option (ℕ × Memory)} {ptr : ℕ} {after : Memory} (q : ℕ)
      → IsAllocated bm n o
      → o ≡ some (ptr, after)
      → ptr ≢ 0
      → is_used (page_free after ptr n) q ≡ is_used bm q
  taken_or_null q (taken s at_run run least marked) e ne =
      subst (λ (r : ℕ × Memory). is_used (page_free r.1 r.0 n) q ≡ is_used bm q)
        (some-injective _ _ e) (restored s q at_run run marked)
  taken_or_null q (full none_fits) e ne =
      absurd (ne (sym (ap (λ (r : ℕ × Memory). r.0) (some-injective _ _ e))))

-- Freeing what a successful `page_alloc` has just handed out gives every page its old state back.
pub page_free-page_alloc :
    (bm : Memory) (n step ptr : ℕ) (after : Memory) (q : ℕ)
    → IsBytes bm
    → 0 < n
    → n ≤ page_count
    → 0 < step
    → step ≤ page_size
    → page_alloc bm n step ≡ some (ptr, after)
    → ptr ≢ 0
    → is_used (page_free after ptr n) q ≡ is_used bm q
page_free-page_alloc bm n step ptr after q bytes pos fits step_pos step_fits e ne =
    taken_or_null bm n bytes q (page_alloc-IsAllocated bm n step bytes pos fits step_pos step_fits)
      e ne
