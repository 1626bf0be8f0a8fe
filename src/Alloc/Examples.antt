-- ===== src/Alloc/Examples.antt =====
-- Runs of lib/alloc.c, on a heap of one block at address 16 with a used and a free chunk.
use nop.Base.{ℕ, ◌+◌, refl, arith, true, false, [], ◌∷◌, Memory, inl}
use nop.Base.Dwords.{load32, store32}
use nop.Alloc.{Heap, free, malloc_once, block_size}
use nop.Alloc.Blocks.{Block, IsHeap, IsSearch, malloc_once-IsSearch}
use nop.Alloc.Laws.{Grants, IsGranted, new_block, malloc-IsGranted}
use nop.Alloc.Free.{IsUsedIn, release, free-IsHeap, here}

abbrev memory : Memory
memory = store32 (store32 (store32 (store32 (λ a. 0) 16 0) 20 32) 24 4294967288) 36 16

abbrev heap : Heap ℕ
heap = record { mem = memory; block_root = 16; block_min = 64; pages = 4096 }

abbrev block : Block
block = record {
  addr = 16;
  size = 32;
  chunks = record { size = 8; used = true } ∷ record { size = 16; used = false } ∷ [];
}

-- The callback gives the memory behind what it gave before.
abbrev page_alloc : ℕ → ℕ → ℕ × ℕ × ℕ
page_alloc n pages = (pages + 4096, pages, 4096)

heap-IsHeap : IsHeap heap (block ∷ [])
unfolding load32 store32
heap-IsHeap = record {
  linked = (
    refl,
    omega arith,
    refl,
    (
      refl,
      record { small = omega arith; marked = λ u. omega arith },
      (refl, record { small = omega arith; marked = λ u. omega arith }, refl),
    ),
    refl,
  );
  apart = (tt, tt);
  short = omega arith;
  word = omega arith;
}

malloc_once-IsSearch_example : IsSearch memory 6 16 (block ∷ []) (malloc_once 6 heap)
malloc_once-IsSearch_example =
    malloc_once-IsSearch 6 heap (block ∷ []) (omega arith) (omega arith) heap-IsHeap

page_alloc-Grants :
    Grants {P = ℕ} (block_size page_alloc 100 heap + 12) (8192, 4096, 4096) (block ∷ [])
unfolding block_size
page_alloc-Grants = record {
  addr = omega arith;
  enough = omega arith;
  fits = omega arith;
  small = omega arith;
  clear = (inl (omega arith), tt);
}

malloc-IsGranted_example : IsGranted page_alloc 100 heap (block ∷ []) (new_block 4096 4096)
malloc-IsGranted_example =
    malloc-IsGranted page_alloc 100 heap (block ∷ []) (omega arith) (omega arith) (omega arith)
      (omega arith) heap-IsHeap page_alloc-Grants

free-IsHeap_example : IsHeap (free 28 heap) (release 28 (block ∷ []))
free-IsHeap_example =
    free-IsHeap 28 heap (block ∷ []) heap-IsHeap (IsUsedIn.here block [] (here 24 _ _ refl refl))
