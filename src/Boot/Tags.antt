-- ===== src/Boot/Tags.antt =====
-- nop/arch/i386/start.c: the loop over the tags ends, and takes the last memory map.
use nop.Base.{
  ℕ, zero, suc, ◌+◌, ◌%◌, ◌^◌, ◌<◌, ◌≤◌, ◌≡◌, ◌≢◌, refl, ◌∙◌, arith, true, false, ◌&&◌, not, Option,
  some, List, [], ◌∷◌, ltb, ◌==◌, if◌then◌else◌, Memory,
}
use nop.Base.Dwords.{load32}
use nop.Start.{Block}
use nop.Boot.{
  MapEntry, tag_type_end, tag_type_mmap, tag_entries, next_tag, map_blocks, iterate_tags,
  i386_blocks,
}

-- From the offset `i` behind `tags` up to the end tag or to `total` stand tags, and these are the memory
-- maps among them, in order. The offset of each tag and the one behind it fit their word.
pub data HasTags (mem : Memory) (tags total : ℕ) : ℕ → List (List MapEntry) → Type 0 where
  over : (i : ℕ) → total ≤ i → HasTags mem tags total i []
  end_tag : (i : ℕ) → load32 mem (tags + i) ≡ tag_type_end → HasTags mem tags total i []
  map_tag :
      (i : ℕ) {maps : List (List MapEntry)}
      → i < total
      → load32 mem (tags + i) ≡ tag_type_mmap
      → 0 < load32 mem (tags + i + 4)
      → i + (load32 mem (tags + i + 4) + 7) < 2 ^ 32
      → HasTags mem tags total (next_tag i (load32 mem (tags + i + 4))) maps
      → HasTags mem tags total i (tag_entries mem (tags + i) ∷ maps)
  other_tag :
      (i : ℕ) {maps : List (List MapEntry)}
      → i < total
      → load32 mem (tags + i) ≢ tag_type_end
      → load32 mem (tags + i) ≢ tag_type_mmap
      → 0 < load32 mem (tags + i + 4)
      → i + (load32 mem (tags + i + 4) + 7) < 2 ^ 32
      → HasTags mem tags total (next_tag i (load32 mem (tags + i + 4))) maps
      → HasTags mem tags total i maps

-- The last of the lists, or this one if there is none.
unfoldable pub last_map : {A : Type 0} → A → List A → A
last_map first [] = first
last_map first (x ∷ rest) = last_map x rest

next_tag-lt :
    (i size : ℕ)
    → 0 < size
    → i % 8 ≡ 0
    → i + (size + 7) < 2 ^ 32
    → (i < next_tag i size) × (next_tag i size % 8 ≡ 0)
unfolding next_tag
next_tag-lt i size some_size aligned fits = (omega arith, omega arith)

module _ (load_start bss_end : ℕ) (mem : Memory) (tags total : ℕ) where
  abbrev iterate : ℕ → ℕ → List Block → Option (List Block)
  iterate fuel i blocks = iterate_tags load_start bss_end fuel mem tags total i blocks

  iterate_stop :
      (fuel i : ℕ) (blocks : List Block)
      → (ltb i total && not (load32 mem (tags + i) == tag_type_end)) ≡ false
      → iterate (suc fuel) i blocks ≡ some blocks
  unfolding iterate_tags
  iterate_stop fuel i blocks e = rw (e, iterate_tags) refl

  iterate_on :
      (fuel i : ℕ) (blocks : List Block)
      → (ltb i total && not (load32 mem (tags + i) == tag_type_end)) ≡ true
      → iterate (suc fuel) i blocks
        ≡ iterate fuel (next_tag i (load32 mem (tags + i + 4))) (
            if load32 mem (tags + i) == tag_type_mmap
            then map_blocks load_start bss_end (tag_entries mem (tags + i))
            else blocks)
  unfolding iterate_tags
  iterate_on fuel i blocks e = rw (e, iterate_tags) refl

  iterate-last_map :
      (fuel i : ℕ) (entries : List MapEntry) {maps : List (List MapEntry)}
      → i % 8 ≡ 0
      → total < i + fuel
      → 0 < fuel
      → HasTags mem tags total i maps
      → iterate fuel i (map_blocks load_start bss_end entries)
        ≡ some (map_blocks load_start bss_end (last_map entries maps))
  unfolding last_map
  iterate-last_map zero i entries aligned enough some_fuel h = absurd (omega arith)
  iterate-last_map (suc fuel) i entries aligned enough some_fuel (over _ done) =
      iterate_stop fuel i (map_blocks load_start bss_end entries) (ground arith)
  iterate-last_map (suc fuel) i entries aligned enough some_fuel (end_tag _ last) =
      iterate_stop fuel i (map_blocks load_start bss_end entries) (ground arith)
  iterate-last_map (suc fuel) i entries aligned enough some_fuel
        (map_tag _ lt kind size fits rest) =
      let next = next_tag-lt i (load32 mem (tags + i + 4)) size aligned fits in
      let test : (load32 mem (tags + i) == tag_type_mmap) ≡ true = ground arith in
      iterate_on fuel i (map_blocks load_start bss_end entries) (ground arith)
      ∙ rw test (
          iterate-last_map fuel (next_tag i (load32 mem (tags + i + 4)))
            (tag_entries mem (tags + i)) next.1 (omega (arith, next.0)) (omega arith) rest)
  iterate-last_map (suc fuel) i entries aligned enough some_fuel
        (other_tag _ lt not_end kind size fits rest) =
      let next = next_tag-lt i (load32 mem (tags + i + 4)) size aligned fits in
      let test : (load32 mem (tags + i) == tag_type_mmap) ≡ false = ground arith in
      iterate_on fuel i (map_blocks load_start bss_end entries) (ground arith)
      ∙ rw test (
          iterate-last_map fuel (next_tag i (load32 mem (tags + i + 4))) entries next.1
            (omega (arith, next.0)) (omega arith) rest)

-- If the tags have sizes, and their offsets fit their word, the loop over them ends, and the blocks are
-- those of the last memory map, none if there is no memory map.
pub i386_blocks-last_map :
    (load_start bss_end : ℕ) (mem : Memory) (tags : ℕ) {maps : List (List MapEntry)}
    → HasTags mem (tags + 8) (load32 mem tags) 0 maps
    → i386_blocks load_start bss_end mem tags
      ≡ some (map_blocks load_start bss_end (last_map [] maps))
unfolding i386_blocks map_blocks
i386_blocks-last_map load_start bss_end mem tags h =
    iterate-last_map load_start bss_end mem (tags + 8) (load32 mem tags) (load32 mem tags + 1) 0 []
      refl (omega arith) (omega arith) h
