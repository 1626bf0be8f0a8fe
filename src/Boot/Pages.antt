-- ===== src/Boot/Pages.antt =====
-- nop/arch/i386/start.c with nop/start.c: which pages are free once the kernel has started.
use nop.Base.{
  ℕ, ◌+◌, ◌-◌, ◌*◌, ◌^◌, ◌<◌, ◌≤◌, ◌≡◌, ◌≢◌, sym, ◌∙◌, ◌⊎◌, inl, inr, arith, Bool, true, false,
  ◌&&◌, Bool-cases, some, List, [], ◌∷◌, ltb, ◌==◌, u32, Memory, IsBytes,
}
use nop.Base.Dwords.{load32}
use nop.Page.{page_count, page_size, is_used}
use nop.Start.{Block, page_bitmap_size, reserve, start_pages}
use nop.Start.Pages.{
  Apart, AllApart, covered, covered_in, reserve_in, reserve_clear, reserve-covered,
  start_pages-IsReady,
}
use nop.Boot.{
  MapEntry, memory_available, low_memory, clip_start, clip_end, add_block, map_blocks, i386_blocks,
}
use nop.Boot.Blocks.{AllEnd, in_map, is_clear, map_blocks-in_map, map_blocks-AllFit}
use nop.Boot.Tags.{HasTags, last_map, i386_blocks-last_map}

-- One of the entries is not available, or they share no address.
abbrev pub EntryApart : MapEntry → MapEntry → Type 0
EntryApart e f =
    (e.kind ≢ memory_available)
    ⊎ (f.kind ≢ memory_available)
    ⊎ (e.addr + e.len ≤ f.addr)
    ⊎ (f.addr + f.len ≤ e.addr)

abbrev pub EntryApartAll : MapEntry → List MapEntry → Type 0
EntryApartAll e [] = Unit
EntryApartAll e (f ∷ rest) = EntryApart e f × EntryApartAll e rest

abbrev pub EntriesApart : List MapEntry → Type 0
EntriesApart [] = Unit
EntriesApart (e ∷ rest) = EntryApartAll e rest × EntriesApart rest

module _ (load_start bss_end : ℕ) where
  abbrev first_of : MapEntry → ℕ
  first_of e = clip_start load_start bss_end (u32 e.addr)

  abbrev end_of : MapEntry → ℕ
  end_of e = clip_end load_start bss_end (first_of e) (u32 (e.addr + e.len))

  abbrev is_added : MapEntry → Bool
  is_added e = e.kind == memory_available && ltb (first_of e) (end_of e)

  abbrev block_of : MapEntry → Block
  block_of e = record { start = first_of e; size = end_of e - first_of e }

  added_kind : (e : MapEntry) → is_added e ≡ true → e.kind ≡ memory_available
  added_kind e h = ground arith

  -- A block lies in its entry.
  added_bounds :
      (e : MapEntry)
      → load_start ≤ low_memory
      → e.addr + e.len + page_size ≤ 2 ^ 32
      → is_added e ≡ true
      → (e.addr ≤ first_of e) × (first_of e + (end_of e - first_of e) ≤ e.addr + e.len)
  unfolding clip_start clip_end
  added_bounds e low fits h = (ground arith, ground arith)

  add_block-Apart :
      (e f : MapEntry) (blocks : List Block)
      → load_start ≤ low_memory
      → e.addr + e.len + page_size ≤ 2 ^ 32
      → f.addr + f.len + page_size ≤ 2 ^ 32
      → EntryApart e f
      → is_added e ≡ true
      → Apart (block_of e) blocks
      → Apart (block_of e) (add_block load_start bss_end f blocks)
  unfolding add_block
  add_block-Apart e f blocks low fit_e fit_f apart added all = elim (Bool-cases (is_added f)) [
    | inl here ↦
        let be = added_bounds e low fit_e added in
        let bf = added_bounds f low fit_f here in
        rw here (
          elim apart [
            | inl no_e ↦ absurd (no_e (added_kind e added))
            | inr (inl no_f) ↦ absurd (no_f (added_kind f here))
            | inr (inr (inl before)) ↦ inl (omega (arith, be.1, bf.0))
            | inr (inr (inr behind)) ↦ inr (omega (arith, be.0, bf.1))
          ],
          all,
        )
    | inr dropped ↦ rw dropped all
  ]

  map_blocks-Apart :
      (e : MapEntry) (entries : List MapEntry)
      → load_start ≤ low_memory
      → e.addr + e.len + page_size ≤ 2 ^ 32
      → AllEnd entries
      → EntryApartAll e entries
      → is_added e ≡ true
      → Apart (block_of e) (map_blocks load_start bss_end entries)
  unfolding map_blocks
  map_blocks-Apart e [] low fit_e fits apart added = tt
  map_blocks-Apart e (f ∷ rest) low fit_e fits apart added =
      add_block-Apart e f (map_blocks load_start bss_end rest) low fit_e fits.0 apart.0 added
        (map_blocks-Apart e rest low fit_e fits.1 apart.1 added)

  map_blocks-AllApart :
      (entries : List MapEntry)
      → load_start ≤ low_memory
      → AllEnd entries
      → EntriesApart entries
      → AllApart (map_blocks load_start bss_end entries)
  unfolding map_blocks add_block
  map_blocks-AllApart [] low fits apart = tt
  map_blocks-AllApart (e ∷ rest) low fits apart =
      let tail = map_blocks-AllApart rest low fits.1 apart.1 in
      elim (Bool-cases (is_added e)) [
        | inl added ↦ rw added (map_blocks-Apart e rest low fits.0 fits.1 apart.0 added, tail)
        | inr dropped ↦ rw dropped tail
      ]

-- Every address of a free page is available by the memory map, above 1 MiB, and neither in the kernel nor
-- in the bitmap.
pub record IsSafe (load_start bss_end : ℕ) (entries : List MapEntry) (at : ℕ) (after : Memory)
    : Type 0 where
  pub free :
      (q a : ℕ)
      → q < page_count
      → is_used after q ≡ false
      → q * page_size ≤ a
      → a < (q + 1) * page_size
      → (in_map entries a ≡ true)
        × (is_clear load_start bss_end a ≡ true)
        × ((a < at) ⊎ (at + page_bitmap_size ≤ a))

blocks-IsSafe :
    (load_start bss_end : ℕ) (entries : List MapEntry) (bm : Memory) (at : ℕ)
    → load_start ≤ low_memory
    → AllEnd entries
    → EntriesApart entries
    → IsBytes bm
    → (reserve (map_blocks load_start bss_end entries)).bitmap ≡ some at
    → IsSafe load_start bss_end entries at (start_pages (map_blocks load_start bss_end entries) bm)
blocks-IsSafe load_start bss_end entries bm at low fits apart bytes e =
    let blocks = map_blocks load_start bss_end entries in
    let all_apart = map_blocks-AllApart load_start bss_end entries low fits apart in
    let ready =
      start_pages-IsReady blocks bm at (map_blocks-AllFit load_start bss_end entries low fits)
        all_apart bytes e in
    record {
      free = λ q a lt unused from to.
          let kept : covered (reserve blocks).blocks q ≡ true =
            ground (arith, ready.pages q lt, reserve-covered blocks at q all_apart e) in
          let inside = covered_in (reserve blocks).blocks q a from to kept in
          let known = map_blocks-in_map load_start bss_end entries a low fits in
          let both = sym known ∙ reserve_in blocks a inside in
          (ground arith, ground arith, reserve_clear blocks at a all_apart e inside);
    }

-- If the kernel is loaded at 1 MiB or below, the entries of the last memory map that are available share
-- no address, all end a page below the end of the addresses, and one leaves room for the bitmap, then the
-- loop over the tags ends, and after `start` has set up the pages, every address of a free page is
-- available by that map, not below 1 MiB, and neither in the kernel nor in the bitmap.
pub boot_pages-IsSafe :
    (load_start bss_end : ℕ) (mem : Memory) (tags : ℕ) (maps : List (List MapEntry)) (bm : Memory)
    (at : ℕ)
    → load_start ≤ low_memory
    → HasTags mem (tags + 8) (load32 mem tags) 0 maps
    → AllEnd (last_map [] maps)
    → EntriesApart (last_map [] maps)
    → IsBytes bm
    → (reserve (map_blocks load_start bss_end (last_map [] maps))).bitmap ≡ some at
    → (blocks : List Block) × (i386_blocks load_start bss_end mem tags ≡ some blocks)
      × IsSafe load_start bss_end (last_map [] maps) at (start_pages blocks bm)
boot_pages-IsSafe load_start bss_end mem tags maps bm at low h fits apart bytes e = (
  map_blocks load_start bss_end (last_map [] maps),
  i386_blocks-last_map load_start bss_end mem tags h,
  blocks-IsSafe load_start bss_end (last_map [] maps) bm at low fits apart bytes e,
)
