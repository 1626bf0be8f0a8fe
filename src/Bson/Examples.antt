-- ===== src/Bson/Examples.antt =====
-- lib/bson.c: runs, and the law at a document of two entries.
use nop.Base.{
  ℕ, ◌+◌, ◌<◌, ◌≡◌, ◌≢◌, refl, arith, Option, some, List, [], ◌∷◌, Memory, IsBytes, of_list,
  of_list-IsBytes,
}
use nop.Base.Dwords.{load32}
use nop.CString.Length.{IsString}
use nop.Endian.{int32le_to_host}
use nop.Bson.{load_size, bson_find_entry}
use nop.Bson.Laws.{
  int, boolean, HasEntries, last, entry, IsFirstNamed, bson_find_entry-IsFirstNamed,
}

-- { "a": 1, "b": true }, and the name "b" behind it.
abbrev bytes : List ℕ
bytes = 16 ∷ 0 ∷ 0 ∷ 0 ∷ 0x10 ∷ 97 ∷ 0 ∷ 1 ∷ 0 ∷ 0 ∷ 0 ∷ 0x08 ∷ 98 ∷ 0 ∷ 1 ∷ 0 ∷ 98 ∷ 0 ∷ []

abbrev memory : Memory
memory = of_list bytes

memory-IsBytes : IsBytes memory
memory-IsBytes = of_list-IsBytes bytes (omega arith)

size_is : load_size memory 0 ≡ 16
unfolding load_size load32 int32le_to_host
size_is = refl

a-IsString : IsString memory 5 1
a-IsString = record { nonzero = chars; terminated = refl }
  where
    chars : (i : ℕ) → i < 1 → memory (5 + i) ≢ 0
    chars i h = grind arith

b-IsString : IsString memory 12 1
b-IsString = record { nonzero = chars; terminated = refl }
  where
    chars : (i : ℕ) → i < 1 → memory (12 + i) ≢ 0
    chars i h = grind arith

two_entries : HasEntries memory (0 + load_size memory 0) 4 ((4, 1) ∷ (11, 1) ∷ [])
two_entries = rw size_is (
    entry 4 0x10 1 4 refl (omega arith) a-IsString int (omega arith) (
      entry 11 0x08 1 1 refl (omega arith) b-IsString boolean (omega arith)
        (last 15 (omega arith) refl)))

bson_find_entry-IsFirstNamed_example :
    (o : Option ℕ) × (bson_find_entry memory 0 16 ≡ some o)
    × IsFirstNamed memory 16 ((4, 1) ∷ (11, 1) ∷ []) o
bson_find_entry-IsFirstNamed_example =
    bson_find_entry-IsFirstNamed memory 0 16 ((4, 1) ∷ (11, 1) ∷ []) memory-IsBytes
      (omega (arith, size_is)) (omega (arith, size_is)) two_entries
