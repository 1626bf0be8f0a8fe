-- ===== src/Alloc/Laws.antt =====
-- lib/alloc.c: `malloc` is served on every branch, if the callback has memory to give.
use mathlib.Core.Path.{subst}
use mathlib.Core.Option.{none-ne-some}
use nop.Base.{
  ℕ, ◌+◌, ◌-◌, ◌^◌, ◌≤◌, ◌<◌, ◌≡◌, ◌≢◌, ◌⊎◌, inl, inr, refl, sym, ◌∙◌, arith, true, false, none,
  some, List, [], ◌∷◌, length, Memory, leb, u32, sub32,
}
use nop.Base.Dwords.{load32, store32, load32-store32, load32-store32_apart, store32_outside}
use nop.CString.{address_space}
use nop.Alloc.{
  block_bytes, header_bytes, Search, hit, miss, Heap, malloc_once, alloc_block, block_size, finish,
  malloc,
}
use nop.Alloc.Chunks.{Chunk, first_fit, split_chunk}
use nop.Alloc.Blocks.{
  Block, Outside, fit_blocks, fit_here, Linked-frame, IsSearch, served, refused, IsHeap,
  malloc_once-IsSearch,
}

-- What `finish` leaves.
data IsServed {P : Type 0} (n : ℕ) (h : Heap P) (bs : List Block) : Search → Type 0 where
  at :
      (ptr : ℕ) (mem : Memory) (bs' : List Block)
      → fit_blocks n bs ≡ some (ptr, bs')
      → IsHeap (record h { mem = mem }) bs'
      → IsServed n h bs (hit ptr mem)
  nowhere : fit_blocks n bs ≡ none → IsServed n h bs miss

malloc_once-IsServed :
    {P : Type 0} (n : ℕ) (h : Heap P) (bs : List Block)
    → 0 < n
    → n < 2 ^ 31
    → IsHeap h bs
    → IsServed n h bs (malloc_once n h)
malloc_once-IsServed n h bs pos small v = of_search (malloc_once-IsSearch n h bs pos small v)
  where
    of_search : {s : Search} → IsSearch h.mem n h.block_root bs s → IsServed n h bs s
    of_search (refused e) = nowhere e
    of_search (served ptr mem bs' lo hi e linked apart same_length frame away) =
        at ptr mem bs' e (record {
          linked = linked;
          apart = apart;
          short = omega (arith, same_length, v.short);
          word = v.word;
        })

-- The block that `alloc_block` makes of `size` bytes.
abbrev pub new_block : ℕ → ℕ → Block
new_block addr size = record {
  addr = addr;
  size = size - block_bytes;
  chunks = record { size = size - block_bytes - header_bytes; used = false } ∷ [];
}

-- What the callback has to give for a request: memory of at least that size, clear of the heap.
pub record Grants {P : Type 0} (request : ℕ) (given : P × ℕ × ℕ) (bs : List Block) : Type 0 where
  pub addr : 0 < given.1
  pub enough : request ≤ given.2
  pub fits : given.1 + given.2 < 2 ^ 32
  pub small : given.2 < 2 ^ 31
  pub clear : Outside given.1 (given.1 + given.2) bs

module _ {P : Type 0} (page_alloc : ℕ → P → P × ℕ × ℕ) where
  alloc_block-IsHeap :
      (n : ℕ) (h : Heap P) (bs : List Block)
      → n + 12 < 2 ^ 32
      → length bs + 1 < address_space
      → IsHeap h bs
      → Grants (n + 12) (page_alloc (u32 (n + (block_bytes + header_bytes))) h.pages) bs
      → let given = page_alloc (u32 (n + (block_bytes + header_bytes))) h.pages in
        IsHeap (alloc_block page_alloc n h) (new_block given.1 given.2 ∷ bs)
  unfolding alloc_block
  alloc_block-IsHeap n h bs small short v g =
      let (pages, block, size) = page_alloc (u32 (n + (block_bytes + header_bytes))) h.pages in
      let whole : sub32 size block_bytes ≡ size - block_bytes = ground (arith, g.enough, g.small) in
      let room : sub32 (sub32 size block_bytes) header_bytes ≡ size - block_bytes - header_bytes =
        ground (arith, g.enough, g.small) in
      let mem1 = store32 h.mem block h.block_root in
      let mem2 = store32 mem1 (block + 4) (sub32 size block_bytes) in
      let mem3 = store32 mem2 (block + block_bytes) (sub32 (sub32 size block_bytes) header_bytes) in
      let next : load32 mem3 block ≡ h.block_root =
        load32-store32_apart mem2 (block + block_bytes) _ block (inr (omega arith))
        ∙ load32-store32_apart mem1 (block + 4) _ block (inr (omega arith))
        ∙ load32-store32 h.mem block h.block_root
        ∙ omega (arith, v.word) in
      record {
        linked = (
          refl,
          g.addr,
          load32-store32_apart mem2 (block + block_bytes) _ (block + 4) (inr (omega arith))
              ∙ load32-store32 mem1 (block + 4) _
              ∙ ground (arith, whole, g.small),
          (
            load32-store32 mem2 (block + block_bytes) _ ∙ ground (arith, room, g.small),
            record { small = omega (arith, g.small); marked = λ u. cc },
            omega (arith, g.enough),
          ),
          rw next (
              Linked-frame h.mem mem3 block (block + size) h.block_root bs
                (λ a out.
                  store32_outside mem2 (block + block_bytes) _ a (ground (arith, g.enough))
                  ∙ store32_outside mem1 (block + 4) _ a (ground (arith, g.enough))
                  ∙ store32_outside h.mem block _ a (ground (arith, g.enough)))
                g.clear v.linked),
        );
        apart = (subst (λ (e : ℕ). Outside block e bs) (omega (arith, g.enough)) g.clear, v.apart);
        short = omega (arith, short);
        word = omega (arith, g.fits);
      }

  fit_blocks-new :
      (n addr size : ℕ) (bs : List Block)
      → n + 12 ≤ size
      → fit_blocks n (new_block addr size ∷ bs) ≢ none
  unfolding first_fit
  fit_blocks-new n addr size bs le e =
      let fits : leb n (size - block_bytes - header_bytes) ≡ true = ground arith in
      let chunk : Chunk = record { size = size - block_bytes - header_bytes; used = false } in
      let taken : first_fit n (addr + block_bytes) (chunk ∷ [])
          ≡ some (
            addr + block_bytes + header_bytes,
            split_chunk n (size - block_bytes - header_bytes) [],
          ) =
        rw fits refl in
      none-ne-some _ (sym e ∙ fit_here n (new_block addr size) bs taken)

  -- What `malloc` answers: first fit on the heap, or on the heap with a new block.
  pub record IsGranted (n : ℕ) (h : Heap P) (bs : List Block) (new : Block) : Type 0 where
    pub ptr : ℕ
    pub heap : Heap P
    pub blocks : List Block
    pub returns : malloc page_alloc n h ≡ some (ptr, heap)
    pub fits :
        (fit_blocks n bs ≡ some (ptr, blocks))
        ⊎ ((fit_blocks n bs ≡ none) × (fit_blocks n (new ∷ bs) ≡ some (ptr, blocks)))
    pub kept : IsHeap heap blocks

  -- Where first fit fails, the callback's block serves.
  serve_new :
      (n : ℕ) (h : Heap P) (bs : List Block) (new : Block) {s : Search}
      → malloc_once n h ≡ miss
      → fit_blocks n bs ≡ none
      → fit_blocks n (new ∷ bs) ≢ none
      → malloc_once n (alloc_block page_alloc (block_size page_alloc n h) h) ≡ s
      → IsServed n (alloc_block page_alloc (block_size page_alloc n h) h) (new ∷ bs) s
      → IsGranted n h bs new
  unfolding malloc finish
  serve_new n h bs new first full fits second (nowhere e) = absurd (fits e)
  serve_new n h bs new first full fits second (at ptr mem bs' e v) = record {
    ptr = ptr;
    heap = record (alloc_block page_alloc (block_size page_alloc n h) h) { mem = mem };
    blocks = bs';
    returns = rw (first, malloc) (rw first (rw second refl));
    fits = inr (full, e);
    kept = v;
  }

  serve :
      (n : ℕ) (h : Heap P) (bs : List Block) (new : Block) {s : Search}
      → malloc_once n h ≡ s
      → IsServed n h bs s
      → (malloc_once n h ≡ miss → fit_blocks n bs ≡ none → IsGranted n h bs new)
      → IsGranted n h bs new
  unfolding malloc
  serve n h bs new first (nowhere e) otherwise = otherwise first e
  serve n h bs new first (at ptr mem bs' e v) otherwise = record {
    ptr = ptr;
    heap = record h { mem = mem };
    blocks = bs';
    returns = rw (first, malloc) refl;
    fits = inl e;
    kept = v;
  }

  -- On a heap, `malloc` for at least one byte ends and returns a chunk by first fit, from the blocks
  -- there are or, if none has a chunk that is large enough, with a block of what the callback gives in
  -- front of them, and leaves a heap of the blocks that this makes; the callback has to give memory of
  -- at least the size it is asked for, clear of the blocks, and the sizes have to fit their words.
  pub malloc-IsGranted :
      (n : ℕ) (h : Heap P) (bs : List Block)
      → 0 < n
      → n < 2 ^ 30
      → h.block_min < 2 ^ 30
      → length bs + 1 < address_space
      → IsHeap h bs
      → Grants
          (block_size page_alloc n h + 12)
          (page_alloc (u32 (block_size page_alloc n h + (block_bytes + header_bytes))) h.pages)
          bs
      → let given =
          page_alloc (u32 (block_size page_alloc n h + (block_bytes + header_bytes))) h.pages in
        IsGranted n h bs (new_block given.1 given.2)
  malloc-IsGranted n h bs pos small small_min short v g =
      let size = block_size page_alloc n h in
      let given = page_alloc (u32 (size + (block_bytes + header_bytes))) h.pages in
      let bounds : (n ≤ size) × (size + 12 < 2 ^ 32) = unfold block_size in ground arith in
      let new = alloc_block-IsHeap size h bs bounds.1 short v g in
      serve n h bs (new_block given.1 given.2) refl
        (malloc_once-IsServed n h bs pos (omega arith) v)
        (λ first full.
          serve_new n h bs (new_block given.1 given.2) first full
            (fit_blocks-new n given.1 given.2 bs (omega (arith, bounds.0, g.enough))) refl
            (malloc_once-IsServed n _ _ pos (omega arith) new))
