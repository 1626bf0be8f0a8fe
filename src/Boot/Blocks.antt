-- ===== src/Boot/Blocks.antt =====
-- nop/arch/i386/start.c: the addresses of the blocks that the loop over the memory map makes.
use nop.Base.{
  ℕ, ◌+◌, ◌^◌, ◌≤◌, ◌≡◌, refl, arith, Bool, false, ◌&&◌, ◌||◌, not, Bool-cases, inl, inr, List, [],
  ◌∷◌, ltb, leb, ◌==◌, u32,
}
use nop.Page.{page_size}
use nop.Start.{Block}
use nop.Start.Pages.{in_block, in_blocks, AllFit}
use nop.Boot.{MapEntry, memory_available, low_memory, clip_start, clip_end, add_block, map_blocks}

-- Every entry ends a page below the end of the addresses.
abbrev pub AllEnd : List MapEntry → Type 0
AllEnd [] = Unit
AllEnd (e ∷ entries) = (e.addr + e.len + page_size ≤ 2 ^ 32) × AllEnd entries

unfoldable pub in_entry : MapEntry → ℕ → Bool
in_entry e a = e.kind == memory_available && leb e.addr a && ltb a (e.addr + e.len)

unfoldable pub in_map : List MapEntry → ℕ → Bool
in_map [] a = false
in_map (e ∷ entries) a = in_entry e a || in_map entries a

module _ (load_start bss_end : ℕ) where
  -- Behind the area of the real mode and outside the kernel.
  unfoldable pub is_clear : ℕ → Bool
  is_clear a = leb low_memory a && not (leb load_start a && ltb a bss_end)

  add_block_lem :
      (e : MapEntry) (blocks : List Block) (a : ℕ)
      → load_start ≤ low_memory
      → e.addr + e.len + page_size ≤ 2 ^ 32
      → in_blocks (add_block load_start bss_end e blocks) a
        ≡ ((in_entry e a && is_clear a) || in_blocks blocks a)
  unfolding add_block clip_start clip_end in_blocks in_block in_entry is_clear
  add_block_lem e blocks a low fits = ground arith

  -- If the kernel is loaded at 1 MiB or below, and every entry ends a page below the end of the
  -- addresses, an address is in a block exactly if it is in an entry of memory that is available, not
  -- below 1 MiB and not in the kernel.
  pub map_blocks-in_map :
      (entries : List MapEntry) (a : ℕ)
      → load_start ≤ low_memory
      → AllEnd entries
      → in_blocks (map_blocks load_start bss_end entries) a ≡ (in_map entries a && is_clear a)
  unfolding map_blocks in_map in_blocks
  map_blocks-in_map [] a low fits = refl
  map_blocks-in_map (e ∷ entries) a low fits =
      let tail = map_blocks-in_map entries a low fits.1 in
      let here = add_block_lem e (map_blocks load_start bss_end entries) a low fits.0 in
      ground (arith, tail, here)

  add_block-AllFit :
      (e : MapEntry) (blocks : List Block)
      → load_start ≤ low_memory
      → e.addr + e.len + page_size ≤ 2 ^ 32
      → AllFit blocks
      → AllFit (add_block load_start bss_end e blocks)
  unfolding add_block clip_start clip_end
  add_block-AllFit e blocks low fits all =
      let entry_start = clip_start load_start bss_end (u32 e.addr) in
      let entry_end = clip_end load_start bss_end entry_start (u32 (e.addr + e.len)) in
      elim (Bool-cases (e.kind == memory_available && ltb entry_start entry_end)) [
        | inl added ↦ rw added (ground arith, all)
        | inr dropped ↦ rw dropped all
      ]

  pub map_blocks-AllFit :
      (entries : List MapEntry)
      → load_start ≤ low_memory
      → AllEnd entries
      → AllFit (map_blocks load_start bss_end entries)
  unfolding map_blocks
  map_blocks-AllFit [] low fits = tt
  map_blocks-AllFit (e ∷ entries) low fits =
      add_block-AllFit e (map_blocks load_start bss_end entries) low fits.0
        (map_blocks-AllFit entries low fits.1)
