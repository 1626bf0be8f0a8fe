-- ===== src/Start/Pages.antt =====
-- nop/start.c: which pages are free once the bitmap has been set up.
use nop.Base.{
  ℕ, ◌+◌, ◌-◌, ◌*◌, ◌/◌, ◌^◌, ◌<◌, ◌≤◌, ◌≡◌, refl, ◌⊎◌, inl, inr, arith, Bool, true, false, ◌&&◌,
  ◌||◌, not, Bool-cases, some, List, [], ◌∷◌, ltb, leb, u32, Memory, IsBytes,
}
use mathlib.Core.Option.{some-injective, none-ne-some}
use nop.Page.{page_count, page_size, page_used_mark, page_free_mark, is_used, page_init, page_mark}
use nop.Page.Mark.{page_mark-IsMarked}
use nop.Page.Laws.{page_init-is_used}
use nop.Start.{Block, page_bitmap_size, cut_block, keep_block, reserve, mark_blocks, start_pages}

unfoldable pub in_block : Block → ℕ → Bool
in_block b a = leb b.start a && ltb a (b.start + b.size)

unfoldable pub in_blocks : List Block → ℕ → Bool
in_blocks [] a = false
in_blocks (b ∷ rest) a = in_block b a || in_blocks rest a

-- The page `q` lies wholly in the block, or in one of the blocks.
unfoldable pub covers : Block → ℕ → Bool
covers b q = leb b.start (q * page_size) && leb ((q + 1) * page_size) (b.start + b.size)

unfoldable pub covered : List Block → ℕ → Bool
covered [] q = false
covered (b ∷ rest) q = covers b q || covered rest q

-- Every block ends a page below the end of the addresses.
abbrev pub AllFit : List Block → Type 0
AllFit [] = Unit
AllFit (b ∷ rest) = (b.start + b.size + page_size ≤ 2 ^ 32) × AllFit rest

abbrev pub Apart : Block → List Block → Type 0
Apart b [] = Unit
Apart b (c ∷ rest) = ((b.start + b.size ≤ c.start) ⊎ (c.start + c.size ≤ b.start)) × Apart b rest

-- No two blocks share an address.
abbrev pub AllApart : List Block → Type 0
AllApart [] = Unit
AllApart (b ∷ rest) = Apart b rest × AllApart rest

pub covered_in :
    (bs : List Block) (q a : ℕ)
    → q * page_size ≤ a
    → a < (q + 1) * page_size
    → covered bs q ≡ true
    → in_blocks bs a ≡ true
unfolding covered covers in_blocks in_block
covered_in [] q a le lt h = h
covered_in (b ∷ rest) q a le lt h = elim (Bool-cases (covers b q)) [
  | inl here ↦ ground arith
  | inr there ↦
      let tail : in_blocks rest a ≡ true = covered_in rest q a le lt (ground arith) in ground arith
]

Apart-in_blocks :
    (b : Block) (bs : List Block) (a : ℕ)
    → Apart b bs
    → in_blocks bs a ≡ true
    → (a < b.start) ⊎ (b.start + b.size ≤ a)
unfolding in_blocks in_block
Apart-in_blocks b [] a apart h = ground arith
Apart-in_blocks b (c ∷ rest) a apart h = elim (Bool-cases (in_block c a)) [
  | inl here ↦ ground (arith, apart.0)
  | inr there ↦ Apart-in_blocks b rest a apart.1 (ground arith)
]

mark_blocks-IsMarked :
    (bs : List Block) (bm : Memory)
    → AllFit bs
    → IsBytes bm
    → IsBytes (mark_blocks bs bm)
      × ((q : ℕ) → is_used (mark_blocks bs bm) q ≡ (not (covered bs q) && is_used bm q))
unfolding mark_blocks covered covers
mark_blocks-IsMarked [] bm fits bytes = (bytes, λ q. refl)
mark_blocks-IsMarked (b ∷ rest) bm fits bytes =
    let start = u32 (b.start + (page_size - 1)) / page_size in
    let end = u32 (b.start + b.size) / page_size in
    let here = page_mark-IsMarked bm start end page_free_mark bytes in
    let tail =
      mark_blocks-IsMarked rest (page_mark bm start end page_free_mark) fits.1 here.bytes in
    (tail.0, λ q. ground (arith, tail.1 q, here.pages q, fits.0))

-- What `reserve` does to the blocks: the bitmap takes the end of one, and the rest stays.
unfold_cut :
    (b : Block) (rest : List Block)
    → leb page_bitmap_size b.size ≡ true
    → reserve (b ∷ rest) ≡ record {
      bitmap = some (b.start + (b.size - page_bitmap_size));
      blocks = cut_block b ∷ rest;
    }
unfolding reserve
unfold_cut b rest large = rw (large, reserve) refl

unfold_keep :
    (b : Block) (rest : List Block)
    → leb page_bitmap_size b.size ≡ false
    → reserve (b ∷ rest) ≡ keep_block b (reserve rest)
unfolding reserve
unfold_keep b rest small = rw (small, reserve) refl

reserve-AllFit : (bs : List Block) → AllFit bs → AllFit (reserve bs).blocks
unfolding cut_block keep_block
reserve-AllFit [] fits = unfold reserve in fits
reserve-AllFit (b ∷ rest) fits = elim (Bool-cases (leb page_bitmap_size b.size)) [
  | inl large ↦ rw (unfold_cut b rest large) (omega (arith, fits.0), fits.1)
  | inr small ↦ rw (unfold_keep b rest small) (fits.0, reserve-AllFit rest fits.1)
]

pub reserve_in :
    (bs : List Block) (a : ℕ) → in_blocks (reserve bs).blocks a ≡ true → in_blocks bs a ≡ true
unfolding in_blocks in_block cut_block keep_block
reserve_in [] a h = unfold reserve in h
reserve_in (b ∷ rest) a h = elim (Bool-cases (leb page_bitmap_size b.size)) [
  | inl large ↦ let h' = rw (unfold_cut b rest large) at h in ground arith
  | inr small ↦
      let h' = rw (unfold_keep b rest small) at h in
      elim (Bool-cases (in_block b a)) [
        | inl here ↦ ground arith
        | inr there ↦ let tail = reserve_in rest a (ground arith) in ground arith
      ]
]

-- A block that meets no other does not meet the bitmap.
reserve_outside :
    (c : Block) (bs : List Block) (at : ℕ)
    → Apart c bs
    → (reserve bs).bitmap ≡ some at
    → (at + page_bitmap_size ≤ c.start) ⊎ (c.start + c.size ≤ at)
unfolding keep_block
reserve_outside c [] at apart e = absurd (none-ne-some at (unfold reserve in e))
reserve_outside c (b ∷ rest) at apart e = elim (Bool-cases (leb page_bitmap_size b.size)) [
  | inl large ↦
      let e' = some-injective _ _ (rw (unfold_cut b rest large) at e) in ground (arith, apart.0)
  | inr small ↦ reserve_outside c rest at apart.1 (rw (unfold_keep b rest small) at e)
]

pub reserve_clear :
    (bs : List Block) (at a : ℕ)
    → AllApart bs
    → (reserve bs).bitmap ≡ some at
    → in_blocks (reserve bs).blocks a ≡ true
    → (a < at) ⊎ (at + page_bitmap_size ≤ a)
unfolding in_blocks in_block cut_block keep_block
reserve_clear [] at a apart e h = absurd (none-ne-some at (unfold reserve in e))
reserve_clear (b ∷ rest) at a apart e h = elim (Bool-cases (leb page_bitmap_size b.size)) [
  | inl large ↦
      let e' = some-injective _ _ (rw (unfold_cut b rest large) at e) in
      let h' = rw (unfold_cut b rest large) at h in
      elim (Bool-cases (in_blocks rest a)) [
        | inl there ↦ ground (arith, Apart-in_blocks b rest a apart.0 there)
        | inr here ↦ ground arith
      ]
  | inr small ↦
      let e' = rw (unfold_keep b rest small) at e in
      let h' = rw (unfold_keep b rest small) at h in
      elim (Bool-cases (in_block b a)) [
        | inl here ↦ ground (arith, reserve_outside b rest at apart.0 e')
        | inr there ↦ reserve_clear rest at a apart.1 e' (ground arith)
      ]
]

-- The page lies before the bitmap or behind it.
unfoldable pub leaves : ℕ → ℕ → Bool
leaves at q = leb ((q + 1) * page_size) at || leb (at + page_bitmap_size) (q * page_size)

-- The bitmap takes the end of the first block that has room for it.
pub data IsPlace : List Block → ℕ → Type 0 where
  here :
      (b : Block) (rest : List Block) (at : ℕ)
      → page_bitmap_size ≤ b.size
      → at + page_bitmap_size ≡ b.start + b.size
      → IsPlace (b ∷ rest) at
  later :
      (b : Block) (rest : List Block) (at : ℕ)
      → b.size < page_bitmap_size
      → IsPlace rest at
      → IsPlace (b ∷ rest) at

reserve-IsPlace : (bs : List Block) (at : ℕ) → (reserve bs).bitmap ≡ some at → IsPlace bs at
unfolding keep_block
reserve-IsPlace [] at e = absurd (none-ne-some at (unfold reserve in e))
reserve-IsPlace (b ∷ rest) at e = elim (Bool-cases (leb page_bitmap_size b.size)) [
  | inl large ↦
      let e' = some-injective _ _ (rw (unfold_cut b rest large) at e) in
      let room : page_bitmap_size ≤ b.size = ground arith in here b rest at room (omega arith)
  | inr small ↦
      later b rest at (ground arith) (reserve-IsPlace rest at (rw (unfold_keep b rest small) at e))
]

Apart-covered :
    (b : Block) (bs : List Block) (q : ℕ)
    → Apart b bs
    → covered bs q ≡ true
    → ((q + 1) * page_size ≤ b.start) ⊎ (b.start + b.size ≤ q * page_size)
unfolding covered covers
Apart-covered b [] q apart h = ground arith
Apart-covered b (c ∷ rest) q apart h = elim (Bool-cases (covers c q)) [
  | inl inside ↦ ground (arith, apart.0)
  | inr there ↦ Apart-covered b rest q apart.1 (ground arith)
]

pub reserve-covered :
    (bs : List Block) (at q : ℕ)
    → AllApart bs
    → (reserve bs).bitmap ≡ some at
    → covered (reserve bs).blocks q ≡ (covered bs q && leaves at q)
unfolding covered covers leaves cut_block keep_block
reserve-covered [] at q apart e = absurd (none-ne-some at (unfold reserve in e))
reserve-covered (b ∷ rest) at q apart e = elim (Bool-cases (leb page_bitmap_size b.size)) [
  | inl large ↦
      let e' = some-injective _ _ (rw (unfold_cut b rest large) at e) in
      rw (unfold_cut b rest large) (elim (Bool-cases (covered rest q)) [
        | inl there ↦ ground (arith, Apart-covered b rest q apart.0 there)
        | inr others ↦ ground arith
      ])
  | inr small ↦
      let e' = rw (unfold_keep b rest small) at e in
      let tail = reserve-covered rest at q apart.1 e' in
      let outside = reserve_outside b rest at apart.0 e' in
      rw (unfold_keep b rest small) (ground arith)
]

-- The bitmap after the set-up: it stands at `at`, exactly the pages that lie wholly in a block and outside
-- it are free, and no address of it is in a free page.
pub record IsReady (bs : List Block) (at : ℕ) (after : Memory) : Type 0 where
  pub place : IsPlace bs at
  pub bytes : IsBytes after
  pub pages : (q : ℕ) → q < page_count → is_used after q ≡ not (covered bs q && leaves at q)
  pub clear :
      (q a : ℕ)
      → q < page_count
      → q * page_size ≤ a
      → a < (q + 1) * page_size
      → at ≤ a
      → a < at + page_bitmap_size
      → is_used after q ≡ true

-- If the blocks are apart and end a page below the end of the addresses, and one is large enough for the
-- bitmap, then the bitmap takes the end of the first such block, and after the set-up exactly the pages
-- that lie wholly in a block and outside the bitmap are free, and no page that the bitmap stands on is.
pub start_pages-IsReady :
    (bs : List Block) (bm : Memory) (at : ℕ)
    → AllFit bs
    → AllApart bs
    → IsBytes bm
    → (reserve bs).bitmap ≡ some at
    → IsReady bs at (start_pages bs bm)
unfolding start_pages page_init
start_pages-IsReady bs bm at fits apart bytes e =
    let init = page_mark-IsMarked bm 0 page_count page_used_mark bytes in
    let marked =
      mark_blocks-IsMarked (reserve bs).blocks (page_init bm) (reserve-AllFit bs fits) init.bytes in
    rw e (record {
      place = reserve-IsPlace bs at e;
      bytes = marked.0;
      pages = λ q lt.
          ground
            (arith, marked.1 q, page_init-is_used bm q bytes lt, reserve-covered bs at q apart e);
      clear = λ q a lt low high from to. elim (Bool-cases (covered (reserve bs).blocks q)) [
        | inl free ↦
            let inside = covered_in (reserve bs).blocks q a low high free in
            absurd (ground (arith, reserve_clear bs at a apart e inside))
        | inr used ↦ ground (arith, marked.1 q, page_init-is_used bm q bytes lt)
      ];
    })
