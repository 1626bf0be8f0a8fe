-- ===== src/Alloc/Free.antt =====
-- lib/alloc.c: `free` gives a used chunk back, and leaves all others as they were.
use mathlib.Core.Path.{subst}
use nop.Base.{
  ℕ, suc, ◌+◌, ◌-◌, ◌≤◌, ◌<◌, ◌≡◌, ◌⊎◌, inl, refl, sym, ap, ◌∙◌, arith, true, false, ◌&&◌, List, [],
  ◌∷◌, length, Memory, leb, ◌==◌, if◌then◌else◌, sub32, negative32,
}
use nop.Base.Dwords.{load32, store32, load32-store32, store32_outside}
use nop.Alloc.{block_bytes, header_bytes, Heap, free}
use nop.Alloc.Chunks.{Chunk, Tiles, Leaves, Tiles-le, Tiles-frame, load32_frame}
use nop.Alloc.Blocks.{Block, start, end, Linked, Outside, Apart, Linked-frame, IsHeap}

-- The row with the chunk behind whose header `ptr` points marked as free.
abbrev pub release_row : ℕ → ℕ → List Chunk → List Chunk
release_row ptr at [] = []
release_row ptr at (c ∷ cs) =
    let rest = release_row ptr (at + (header_bytes + c.size)) cs in
    if at + header_bytes == ptr then record c { used = false } ∷ cs else c ∷ rest

abbrev pub release : ℕ → List Block → List Block
release ptr [] = []
release ptr (b ∷ bs) =
    let rest = release ptr bs in
    if leb (start b) ptr && leb ptr (end b)
    then record b { chunks = release_row ptr (start b) b.chunks } ∷ bs
    else b ∷ rest

pub data IsUsedAt (ptr : ℕ) : ℕ → List Chunk → Type 0 where
  here :
      (at : ℕ) (c : Chunk) (cs : List Chunk)
      → at + header_bytes ≡ ptr
      → c.used ≡ true
      → IsUsedAt ptr at (c ∷ cs)
  later :
      (at : ℕ) (c : Chunk) (cs : List Chunk)
      → IsUsedAt ptr (at + (header_bytes + c.size)) cs
      → IsUsedAt ptr at (c ∷ cs)

pub data IsUsedIn (ptr : ℕ) : List Block → Type 0 where
  here : (b : Block) (bs : List Block) → IsUsedAt ptr (start b) b.chunks → IsUsedIn ptr (b ∷ bs)
  later : (b : Block) (bs : List Block) → IsUsedIn ptr bs → IsUsedIn ptr (b ∷ bs)

abbrev freed : Memory → ℕ → Memory
freed mem ptr = store32 mem (ptr - header_bytes) (sub32 0 (load32 mem (ptr - header_bytes)))

-- A used chunk's header is negative, and its pointer lies in the row.
record IsReleased (mem : Memory) (ptr at end : ℕ) (cs : List Chunk) : Type 0 where
  negative : negative32 (load32 mem (ptr - header_bytes)) ≡ true
  above : at + header_bytes ≤ ptr
  below : ptr ≤ end
  leaves : Leaves mem at end (freed mem ptr) (release_row ptr at cs)

release_row-IsReleased :
    (mem : Memory) (ptr at end : ℕ) (cs : List Chunk)
    → IsUsedAt ptr at cs
    → Tiles mem at end cs
    → IsReleased mem ptr at end cs
release_row-IsReleased mem ptr at end [] used r = elim used [ ]
release_row-IsReleased mem ptr at end (c ∷ cs) (here _ _ _ e u) r =
    let le = Tiles-le mem (at + (header_bytes + c.size)) end cs r.2 in
    let at_eq : ptr - header_bytes ≡ at = omega (arith, e) in
    let word : load32 mem (ptr - header_bytes) ≡ sub32 0 c.size =
      ap (load32 mem) at_eq ∙ r.0 ∙ rw u refl in
    let hit : (at + header_bytes == ptr) ≡ true = ground (arith, e) in
    record {
      negative = ground (arith, word, r.1.small, r.1.marked u);
      above = omega (arith, e);
      below = omega (arith, e, le);
      leaves = rw hit (
          rw (at_eq, r.0, u)
            (record {
              row = (
                load32-store32 mem at _ ∙ omega (arith, r.1.small, r.1.marked u),
                record { small = r.1.small; marked = λ f. cc },
                Tiles-frame mem _ (at + (header_bytes + c.size)) end cs
                    (λ a ge lt. store32_outside mem at _ a (inl (omega arith))) r.2,
              );
              frame = λ a out. store32_outside mem at _ a (ground (arith, le));
            }));
    }
release_row-IsReleased mem ptr at end (c ∷ cs) (later _ _ _ there) r =
    let ih = release_row-IsReleased mem ptr (at + (header_bytes + c.size)) end cs there r.2 in
    let other : (at + header_bytes == ptr) ≡ false = ground (arith, ih.above) in
    record {
      negative = ih.negative;
      above = omega (arith, ih.above);
      below = ih.below;
      leaves = rw other (record {
        row = (
          load32_frame mem (freed mem ptr) at (λ i lt. ih.leaves.frame (at + i) (inl (omega arith)))
              ∙ r.0,
          r.1,
          ih.leaves.row,
        );
        frame = λ a out. ih.leaves.frame a (ground arith);
      });
    }

-- A used pointer lies inside its block.
IsUsedIn-Outside :
    (mem : Memory) (ptr lo hi root : ℕ) (bs : List Block)
    → IsUsedIn ptr bs
    → Linked mem root bs
    → Outside lo hi bs
    → (ptr ≤ lo) ⊎ (hi + block_bytes < ptr)
IsUsedIn-Outside mem ptr lo hi root [] used l out = elim used [ ]
IsUsedIn-Outside mem ptr lo hi root (b ∷ bs) (here _ _ used) l out =
    let r = release_row-IsReleased mem ptr (start b) (end b) b.chunks used l.3 in
    ground (arith, r.above, r.below)
IsUsedIn-Outside mem ptr lo hi root (b ∷ bs) (later _ _ used) l out =
    IsUsedIn-Outside mem ptr lo hi (load32 mem b.addr) bs used l.4 out.1

record IsFreed (mem : Memory) (ptr root : ℕ) (bs : List Block) : Type 0 where
  negative : negative32 (load32 mem (ptr - header_bytes)) ≡ true
  linked : Linked (freed mem ptr) root (release ptr bs)
  clear : (lo hi : ℕ) → Outside lo hi bs → Outside lo hi (release ptr bs)
  apart : Apart (release ptr bs)
  same_length : length (release ptr bs) ≡ length bs
  pos : header_bytes ≤ ptr

free-IsFreed :
    (mem : Memory) (ptr root : ℕ) (bs : List Block)
    → IsUsedIn ptr bs
    → Linked mem root bs
    → Apart bs
    → IsFreed mem ptr root bs
free-IsFreed mem ptr root [] used l apart = elim used [ ]
free-IsFreed mem ptr root (b ∷ bs) (here _ _ used) l apart =
    let r = release_row-IsReleased mem ptr (start b) (end b) b.chunks used l.3 in
    let inside : (leb (start b) ptr && leb ptr (end b)) ≡ true = ground (arith, r.above, r.below) in
    let frame = r.leaves.frame in
    let next =
      load32_frame mem (freed mem ptr) b.addr (λ i lt. frame (b.addr + i) (inl (omega arith))) in
    let linked : Linked (freed mem ptr) root
        (record b { chunks = release_row ptr (start b) b.chunks } ∷ bs) =
      (
        l.0,
        l.1,
        load32_frame mem (freed mem ptr) (b.addr + 4)
              (λ i lt. frame (b.addr + 4 + i) (inl (omega arith)))
            ∙ l.2,
        r.leaves.row,
        rw next (
            Linked-frame mem (freed mem ptr) b.addr (end b) (load32 mem b.addr) bs
              (λ a out. frame a (ground arith)) apart.0 l.4),
      ) in
    record {
      negative = r.negative;
      linked = rw inside linked;
      clear = λ lo hi out. rw inside out;
      apart = rw inside apart;
      same_length = rw inside refl;
      pos = omega (arith, r.above);
    }
free-IsFreed mem ptr root (b ∷ bs) (later _ _ used) l apart =
    let ih = free-IsFreed mem ptr (load32 mem b.addr) bs used l.4 apart.1 in
    let away = IsUsedIn-Outside mem ptr b.addr (end b) (load32 mem b.addr) bs used l.4 apart.0 in
    let outside : (leb (start b) ptr && leb ptr (end b)) ≡ false = ground (arith, away) in
    let keeps = λ (a : ℕ) (ge : b.addr ≤ a) (lt : a < end b).
      store32_outside mem (ptr - header_bytes) (sub32 0 (load32 mem (ptr - header_bytes))) a
        (ground (arith, away, ih.pos)) in
    let next =
      load32_frame mem (freed mem ptr) b.addr
        (λ i lt. keeps (b.addr + i) (omega arith) (omega arith)) in
    let linked : Linked (freed mem ptr) root (b ∷ release ptr bs) = (
      l.0,
      l.1,
      load32_frame mem (freed mem ptr) (b.addr + 4)
            (λ i lt. keeps (b.addr + 4 + i) (omega arith) (omega arith))
          ∙ l.2,
      Tiles-frame mem (freed mem ptr) (start b) (end b) b.chunks
          (λ a ge lt. keeps a (omega arith) lt) l.3,
      rw next ih.linked,
    ) in
    record {
      negative = ih.negative;
      linked = rw outside linked;
      clear = λ lo hi out. rw outside (out.0, ih.clear lo hi out.1);
      apart = rw outside (ih.clear b.addr (end b) apart.0, ih.apart);
      same_length = rw outside (ap suc ih.same_length);
      pos = ih.pos;
    }

-- On a heap, `free` of the pointer of a used chunk leaves a heap with the same blocks and chunks, in
-- which that chunk is free.
pub free-IsHeap :
    {P : Type 0} (ptr : ℕ) (h : Heap P) (bs : List Block)
    → IsHeap h bs
    → IsUsedIn ptr bs
    → IsHeap (free ptr h) (release ptr bs)
unfolding free
free-IsHeap {P} ptr h bs v used =
    let f = free-IsFreed h.mem ptr h.block_root bs used v.linked v.apart in
    let given : (ptr == 0) ≡ false = ground (arith, f.pos) in
    let at : free ptr h ≡ record h { mem = freed h.mem ptr } = rw (given, f.negative) refl in
    subst (λ (h' : Heap P). IsHeap h' (release ptr bs)) (sym at)
      (record {
        linked = f.linked;
        apart = f.apart;
        short = omega (arith, f.same_length, v.short);
        word = v.word;
      })
