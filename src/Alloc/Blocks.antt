-- ===== src/Alloc/Blocks.antt =====
-- lib/alloc.c: the list of blocks in memory, and `malloc_once` as first fit on it.
use mathlib.Core.Path.{subst}
use nop.Base.{
  ℕ, zero, suc, ◌+◌, ◌^◌, ◌≤◌, ◌<◌, ◌≡◌, ◌⊎◌, inl, refl, sym, ap, ◌∙◌, arith, true, false, Option,
  none, some, List, [], ◌∷◌, length, ◌==◌, Memory,
}
use nop.Base.Dwords.{load32}
use nop.CString.{address_space}
use nop.Alloc.{block_bytes, Search, hit, miss, out_of_fuel, scan_blocks, Heap, malloc_once}
use nop.Alloc.Chunks.{Chunk, Tiles, Leaves, first_fit, Tiles-frame, load32_frame}
use nop.Alloc.Scan.{IsScan, found, missed, scan_chunks-IsScan}

pub record Block : Type 0 where
  pub addr : ℕ
  pub size : ℕ
  pub chunks : List Chunk

abbrev pub start : Block → ℕ
start b = b.addr + block_bytes

abbrev pub end : Block → ℕ
end b = b.addr + block_bytes + b.size

-- The blocks that hang on a pointer.
abbrev pub Linked : Memory → ℕ → List Block → Type 0
Linked mem root [] = root ≡ 0
Linked mem root (b ∷ bs) =
    (root ≡ b.addr)
    × (0 < b.addr)
    × (load32 mem (b.addr + 4) ≡ b.size)
    × Tiles mem (start b) (end b) b.chunks
    × Linked mem (load32 mem b.addr) bs

-- No block reaches into the addresses from `lo` up to `hi`.
abbrev pub Outside : ℕ → ℕ → List Block → Type 0
Outside lo hi [] = Unit {0}
Outside lo hi (b ∷ bs) = ((end b ≤ lo) ⊎ (hi ≤ b.addr)) × Outside lo hi bs

abbrev pub Apart : List Block → Type 0
Apart [] = Unit {0}
Apart (b ∷ bs) = Outside b.addr (end b) bs × Apart bs

-- First fit over the blocks in the order of the list.
unfoldable pub fit_blocks : ℕ → List Block → Option (ℕ × List Block)
fit_blocks n [] = none
fit_blocks n (b ∷ bs) = elim (first_fit n (start b) b.chunks) [
  | some (ptr, cs) ↦ some (ptr, record b { chunks = cs } ∷ bs)
  | none ↦ elim (fit_blocks n bs) [ none ↦ none | some (ptr, bs') ↦ some (ptr, b ∷ bs') ]
]

pub Linked-frame :
    (mem mem' : Memory) (lo hi root : ℕ) (bs : List Block)
    → ((a : ℕ) → (a < lo) ⊎ (hi ≤ a) → mem' a ≡ mem a)
    → Outside lo hi bs
    → Linked mem root bs
    → Linked mem' root bs
Linked-frame mem mem' lo hi root [] same out l = l
Linked-frame mem mem' lo hi root (b ∷ bs) same out l =
    let keeps = λ (a : ℕ) (ge : b.addr ≤ a) (lt : a < end b). same a (ground arith) in
    let next =
      load32_frame mem mem' b.addr (λ i lt. keeps (b.addr + i) (omega arith) (omega arith)) in
    (
      l.0,
      l.1,
      load32_frame mem mem' (b.addr + 4)
            (λ i lt. keeps (b.addr + 4 + i) (omega arith) (omega arith))
          ∙ l.2,
      Tiles-frame mem mem' (start b) (end b) b.chunks (λ a ge lt. keeps a (omega arith) lt) l.3,
      rw next (Linked-frame mem mem' lo hi (load32 mem b.addr) bs same out.1 l.4),
    )

-- What a search of the blocks may answer. It changes memory within one block only.
pub data IsSearch (mem : Memory) (n root : ℕ) (bs : List Block) : Search → Type 0 where
  served :
      (ptr : ℕ) (mem' : Memory) (bs' : List Block) (lo hi : ℕ)
      → fit_blocks n bs ≡ some (ptr, bs')
      → Linked mem' root bs'
      → Apart bs'
      → length bs' ≡ length bs
      → ((a : ℕ) → (a < lo) ⊎ (hi ≤ a) → mem' a ≡ mem a)
      → ((l h : ℕ) → Outside l h bs → ((hi ≤ l) ⊎ (h ≤ lo)) × Outside l h bs')
      → IsSearch mem n root bs (hit ptr mem')
  refused : fit_blocks n bs ≡ none → IsSearch mem n root bs miss

pub fit_here :
    (n : ℕ) (b : Block) (bs : List Block) {r : ℕ × List Chunk}
    → first_fit n (start b) b.chunks ≡ some r
    → fit_blocks n (b ∷ bs) ≡ some (r.0, record b { chunks = r.1 } ∷ bs)
unfolding fit_blocks
fit_here n b bs e = rw (e, fit_blocks) refl

fit_later :
    (n : ℕ) (b : Block) (bs : List Block)
    → first_fit n (start b) b.chunks ≡ none
    → fit_blocks n (b ∷ bs)
      ≡ (elim (fit_blocks n bs) [ none ↦ none | some (ptr, bs') ↦ some (ptr, b ∷ bs') ])
unfolding fit_blocks
fit_later n b bs e = rw (e, fit_blocks) refl

IsSearch-here :
    (mem : Memory) (n root : ℕ) (b : Block) (bs : List Block) (ptr : ℕ) (mem' : Memory)
    (cs : List Chunk)
    → Linked mem root (b ∷ bs)
    → Apart (b ∷ bs)
    → first_fit n (start b) b.chunks ≡ some (ptr, cs)
    → Leaves mem (start b) (end b) mem' cs
    → IsSearch mem n root (b ∷ bs) (hit ptr mem')
IsSearch-here mem n root b bs ptr mem' cs l ap_bs e left =
    let next = load32_frame mem mem' b.addr (λ i lt. left.frame (b.addr + i) (inl (omega arith))) in
    served ptr mem' (record b { chunks = cs } ∷ bs) (start b) (end b) (fit_here n b bs e)
      (
        l.0,
        l.1,
        load32_frame mem mem' (b.addr + 4) (λ i lt. left.frame (b.addr + 4 + i) (inl (omega arith)))
            ∙ l.2,
        left.row,
        rw next (
            Linked-frame mem mem' b.addr (end b) (load32 mem b.addr) bs
              (λ a out. left.frame a (ground arith)) ap_bs.0 l.4),
      )
      ap_bs refl left.frame (λ lo hi out. (ground arith, out))

IsSearch-later :
    (mem : Memory) (n root : ℕ) (b : Block) (bs : List Block) {s : Search}
    → Linked mem root (b ∷ bs)
    → Apart (b ∷ bs)
    → first_fit n (start b) b.chunks ≡ none
    → IsSearch mem n (load32 mem b.addr) bs s
    → IsSearch mem n root (b ∷ bs) s
IsSearch-later mem n root b bs l ap_bs e (refused none_there) =
    refused (fit_later n b bs e ∙ rw none_there refl)
IsSearch-later mem n root b bs l ap_bs e
      (served ptr mem' bs' lo hi fit linked apart same_length frame away) =
    let (clear, out') = away b.addr (end b) ap_bs.0 in
    let keeps = λ (a : ℕ) (ge : b.addr ≤ a) (lt : a < end b). frame a (ground (arith, clear)) in
    let next =
      load32_frame mem mem' b.addr (λ i lt. keeps (b.addr + i) (omega arith) (omega arith)) in
    served ptr mem' (b ∷ bs') lo hi (fit_later n b bs e ∙ rw fit refl)
      (
        l.0,
        l.1,
        load32_frame mem mem' (b.addr + 4)
              (λ i lt. keeps (b.addr + 4 + i) (omega arith) (omega arith))
            ∙ l.2,
        Tiles-frame mem mem' (start b) (end b) b.chunks (λ a ge lt. keeps a (omega arith) lt) l.3,
        rw next linked,
      )
      (out', apart) (ap suc same_length) frame
      (λ lo' hi' out. ((away lo' hi' out.1).0, (out.0, (away lo' hi' out.1).1)))

-- A round, from what its scan answers and what the rest of the search answers.
IsSearch-round :
    (mem : Memory) (n : ℕ) (b : Block) (bs : List Block) (rest : Search) {s : Search}
    → Linked mem b.addr (b ∷ bs)
    → Apart (b ∷ bs)
    → IsSearch mem n (load32 mem b.addr) bs rest
    → IsScan mem n (start b) (end b) b.chunks s
    → IsSearch mem n b.addr
        (b ∷ bs)
        (elim s [ hit ptr mem' ↦ hit ptr mem' | miss ↦ rest | out_of_fuel ↦ out_of_fuel ])
IsSearch-round mem n b bs rest l apart later (found ptr mem' cs' e left) =
    IsSearch-here mem n b.addr b bs ptr mem' cs' l apart e left
IsSearch-round mem n b bs rest l apart later (missed e) =
    IsSearch-later mem n b.addr b bs l apart e later

scan_blocks-IsSearch :
    (fuel : ℕ) (mem : Memory) (n root : ℕ) (bs : List Block)
    → 0 < n
    → n < 2 ^ 31
    → length bs < fuel
    → Linked mem root bs
    → Apart bs
    → IsSearch mem n root bs (scan_blocks fuel mem n root)
unfolding scan_blocks
scan_blocks-IsSearch zero mem n root bs pos small lt l apart = absurd (omega arith)
scan_blocks-IsSearch (suc fuel) mem n root [] pos small lt l apart =
    let stop : (root == 0) ≡ true = ground arith in
    rw (stop, scan_blocks) (refused (unfold fit_blocks in refl))
scan_blocks-IsSearch (suc fuel) mem n root (b ∷ bs) pos small lt l apart =
    let more : (b.addr == 0) ≡ false = ground (arith, l.1) in
    let later =
      scan_blocks-IsSearch fuel mem n (load32 mem b.addr) bs pos small (omega arith) l.4 apart.1 in
    let here =
      scan_chunks-IsScan (b.size + 1) mem n (start b) b.size (start b) (end b) b.chunks pos small
        (omega arith) refl (omega arith) l.3 in
    subst (λ (r : ℕ). IsSearch mem n r (b ∷ bs) (scan_blocks (suc fuel) mem n r)) (sym l.0)
      (rw (more, scan_blocks)
        (rw l.2 (
          IsSearch-round mem n b bs (scan_blocks fuel mem n (load32 mem b.addr))
            (refl, l.1, l.2, l.3, l.4) apart later here)))

-- A heap whose blocks are linked from its root, and lie apart from one another.
pub record IsHeap {P : Type 0} (h : Heap P) (bs : List Block) : Type 0 where
  pub linked : Linked h.mem h.block_root bs
  pub apart : Apart bs
  pub short : length bs < address_space
  pub word : h.block_root < 2 ^ 32

-- On a heap, `malloc_once` for 1 to 2 ^ 31 - 1 bytes ends, and is first fit: the first free chunk that
-- is large enough in the order of the blocks is taken, cut to size if more than a header is left, and
-- its pointer returned, with a heap of the blocks that this leaves; or NULL is returned, exactly if no
-- free chunk is large enough.
pub malloc_once-IsSearch :
    {P : Type 0} (n : ℕ) (h : Heap P) (bs : List Block)
    → 0 < n
    → n < 2 ^ 31
    → IsHeap h bs
    → IsSearch h.mem n h.block_root bs (malloc_once n h)
unfolding malloc_once
malloc_once-IsSearch n h bs pos small v =
    scan_blocks-IsSearch address_space h.mem n h.block_root bs pos small v.short v.linked v.apart
