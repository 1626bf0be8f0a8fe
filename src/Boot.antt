-- ===== src/Boot.antt =====
-- nop/arch/i386/start.c: the loop over the Multiboot2 tags, which makes the blocks of free memory that
-- `start` gets. `load_start` and `bss_end` are the addresses of i386_load_start and i386_bss_end, which the
-- linker gives. The blocks are a list; `log` calls are left out.
pub mod Tags
pub mod Blocks
pub mod Pages
mod Examples
use nop.Base.{
  ℕ, zero, suc, ◌+◌, ◌-◌, ◌*◌, ◌/◌, ◌%◌, ◌^◌, Bool, true, false, ◌&&◌, not, Option, none, some,
  List, [], ◌∷◌, ltb, leb, ◌==◌, if◌then◌else◌, u32, u64, sub32, Memory,
}
use nop.Base.Dwords.{load32}
use nop.Start.{Block}

-- struct multiboot_mmap_entry; `kind` is its type, and its last word is zero.
pub record MapEntry : Type 0 where
  pub addr : ℕ
  pub len : ℕ
  pub kind : ℕ

abbrev pub memory_available : ℕ
memory_available = 1

abbrev pub tag_type_end : ℕ
tag_type_end = 0

abbrev pub tag_type_mmap : ℕ
tag_type_mmap = 6

-- The end of the area of the real mode.
abbrev pub low_memory : ℕ
low_memory = 0x00100000

unfoldable pub load_entry : Memory → ℕ → MapEntry
load_entry mem a = record {
  addr = load32 mem a + 2 ^ 32 * load32 mem (a + 4);
  len = load32 mem (a + 8) + 2 ^ 32 * load32 mem (a + 12);
  kind = load32 mem (a + 16);
}

unfoldable pub load_entries : ℕ → Memory → ℕ → List MapEntry
load_entries zero mem a = []
load_entries (suc n) mem a = load_entry mem a ∷ load_entries n mem (a + 24)

-- The entries of the tag at `tag`.
unfoldable pub tag_entries : Memory → ℕ → List MapEntry
tag_entries mem tag = load_entries (sub32 (load32 mem (tag + 4)) 16 / 24) mem (tag + 16)

-- `i += size + 7; i &= ~7`
unfoldable pub next_tag : ℕ → ℕ → ℕ
next_tag i size = let sum = u32 (i + (size + 7)) in sum - sum % 8

module _ (load_start bss_end : ℕ) where
  unfoldable pub clip_start : ℕ → ℕ
  clip_start entry_start =
      let raised = if ltb entry_start low_memory then low_memory else entry_start in
      if leb load_start raised && ltb raised bss_end then bss_end else raised

  unfoldable pub clip_end : ℕ → ℕ → ℕ
  clip_end entry_start entry_end =
      if leb load_start entry_start && ltb entry_end bss_end then load_start else entry_end

  -- One round of the loop over `j`, in front of the blocks of the rounds behind it.
  unfoldable pub add_block : MapEntry → List Block → List Block
  add_block e blocks =
      let entry_start = clip_start (u32 e.addr) in
      let entry_end = clip_end entry_start (u32 (e.addr + e.len)) in
      if e.kind == memory_available && ltb entry_start entry_end
      then record { start = entry_start; size = entry_end - entry_start } ∷ blocks
      else blocks

  unfoldable pub map_blocks : List MapEntry → List Block
  map_blocks [] = []
  map_blocks (e ∷ entries) = add_block e (map_blocks entries)

  -- The loop over the tags, from the offset `i` behind `tags`; `none` is one that does not end.
  unfoldable pub iterate_tags : ℕ → Memory → ℕ → ℕ → ℕ → List Block → Option (List Block)
  iterate_tags zero mem tags total_size i blocks = none
  iterate_tags (suc fuel) mem tags total_size i blocks =
      let tag = tags + i in
      let type = load32 mem tag in
      let next = next_tag i (load32 mem (tag + 4)) in
      let blocks' = if type == tag_type_mmap then map_blocks (tag_entries mem tag) else blocks in
      elim (ltb i total_size && (not (type == tag_type_end))) [
        | true ↦ iterate_tags fuel mem tags total_size next blocks'
        | false ↦ some blocks
      ]

  -- The blocks that i386_start_c gives to `start`. A round moves on by 8 bytes or more, unless a tag has
  -- no size.
  unfoldable pub i386_blocks : Memory → ℕ → Option (List Block)
  i386_blocks mem tags =
      let total_size = load32 mem tags in
      iterate_tags (total_size + 1) mem (tags + 8) total_size 0 []
