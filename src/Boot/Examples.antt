-- ===== src/Boot/Examples.antt =====
-- nop/arch/i386/start.c and nop/start.c: runs, and the laws at a small memory map.
use nop.Base.{ℕ, ◌-◌, ◌≡◌, refl, arith, true, some, List, [], ◌∷◌, Memory, IsBytes, of_list}
use nop.Base.Dwords.{load32}
use nop.Start.{Block, reserve, start_pages}
use nop.Start.Pages.{in_blocks}
use nop.Boot.{
  MapEntry, clip_start, clip_end, add_block, map_blocks, load_entry, load_entries, tag_entries,
  next_tag, i386_blocks,
}
use nop.Boot.Blocks.{in_entry, in_map, is_clear, map_blocks-in_map}
use nop.Boot.Tags.{HasTags, end_tag, map_tag, last_map}
use nop.Boot.Pages.{IsSafe, boot_pages-IsSafe}

abbrev kernel_start : ℕ
kernel_start = 0x100000

abbrev kernel_end : ℕ
kernel_end = 0x180000

-- The usual memory of a small machine: 640 KiB, a hole, and from 1 MiB to 16 MiB.
abbrev small_map : List MapEntry
small_map =
    record { addr = 0; len = 0x9fc00; kind = 1 }
    ∷ record { addr = 0xf0000; len = 0x10000; kind = 2 }
    ∷ record { addr = 0x100000; len = 0xf00000; kind = 1 }
    ∷ []

small_blocks :
    map_blocks kernel_start kernel_end small_map
    ≡ (record { start = 0x180000; size = 0xe80000 } ∷ [])
unfolding map_blocks add_block clip_start clip_end
small_blocks = refl

-- An entry above 4 GiB becomes a block below it: its address loses the upper word.
high_entry :
    map_blocks kernel_start kernel_end
      (record { addr = 0x100000000; len = 0x40000000; kind = 1 } ∷ [])
    ≡ (record { start = 0x180000; size = 0x3fe80000 } ∷ [])
unfolding map_blocks add_block clip_start clip_end
high_entry = refl

-- An entry up to the end of the addresses is lost.
last_entry :
    map_blocks kernel_start kernel_end
      (record { addr = 0xf0000000; len = 0x10000000; kind = 1 } ∷ [])
    ≡ []
unfolding map_blocks add_block clip_start clip_end
last_entry = refl

map_blocks-in_map_example : in_blocks (map_blocks kernel_start kernel_end small_map) 0x180000 ≡ true
unfolding in_map in_entry is_clear
map_blocks-in_map_example =
    map_blocks-in_map kernel_start kernel_end small_map 0x180000 (omega arith)
      (omega arith, (omega arith, (omega arith, tt)))

-- Nothing is marked before the set-up.
abbrev blank : Memory
blank a = 0

blank-IsBytes : IsBytes blank
blank-IsBytes a = omega arith

-- A memory map of one entry from 1 MiB to 16 MiB, and an end tag.
abbrev tag_bytes : Memory
tag_bytes = of_list (
    56 ∷ 0 ∷ 0 ∷ 0 ∷ 0 ∷ 0 ∷ 0 ∷ 0 ∷ 6 ∷ 0 ∷ 0 ∷ 0 ∷ 40 ∷ 0 ∷ 0 ∷ 0 ∷ 24 ∷ 0 ∷ 0 ∷ 0 ∷ 0 ∷ 0 ∷ 0 ∷ 0
    ∷ 0 ∷ 0 ∷ 16 ∷ 0 ∷ 0 ∷ 0 ∷ 0 ∷ 0 ∷ 0 ∷ 0 ∷ 240 ∷ 0 ∷ 0 ∷ 0 ∷ 0 ∷ 0 ∷ 1 ∷ 0 ∷ 0 ∷ 0 ∷ 0 ∷ 0 ∷ 0
    ∷ 0 ∷ 0 ∷ 0 ∷ 0 ∷ 0 ∷ 8 ∷ 0 ∷ 0 ∷ 0 ∷ [])

abbrev maps : List (List MapEntry)
maps = (record { addr = 0x100000; len = 0xf00000; kind = 1 } ∷ []) ∷ []

tag_bytes-HasTags : HasTags tag_bytes 8 (load32 tag_bytes 0) 0 maps
unfolding load32 tag_entries load_entries load_entry next_tag
tag_bytes-HasTags = map_tag 0 (omega arith) refl (omega arith) (omega arith) (end_tag 40 refl)

boot_pages-IsSafe_example :
    (blocks : List Block) × (i386_blocks kernel_start kernel_end tag_bytes 0 ≡ some blocks)
    × IsSafe kernel_start kernel_end
        (last_map [] maps)
        (0x1000000 - 0x20000)
        (start_pages blocks blank)
boot_pages-IsSafe_example =
    boot_pages-IsSafe kernel_start kernel_end tag_bytes 0 maps blank (0x1000000 - 0x20000)
      (omega arith) tag_bytes-HasTags (unfold last_map in (omega arith, tt))
      (unfold last_map in (tt, tt)) blank-IsBytes
      (unfold last_map map_blocks add_block clip_start clip_end reserve in refl)
