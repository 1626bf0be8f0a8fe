-- ===== src/Bson.antt =====
-- lib/bson.c: the walk over the entries of a BSON document in byte memory. Pointers are addresses of 32
-- bits here, since sizes in the document move them; the fuel bounds the entries, and `none` is a walk that
-- does not end.
pub mod Laws
mod Examples
use nop.Base.{
  ℕ, zero, suc, ◌+◌, ◌^◌, Bool, true, false, ◌||◌, Option, none, some, ltb, ◌==◌, if◌then◌else◌,
  u32, sub32, Memory,
}
use nop.Base.Int.{ℤ, is_zero}
use nop.Base.Dwords.{load32}
use nop.CString.{strlen, strcmp}
use nop.Digits.{long_to_str}
use nop.Endian.{int32le_to_host}

-- `<` of two 32-bit words read as signed
unfoldable pub less_signed : ℕ → ℕ → Bool
less_signed a b = ltb (u32 (a + 2 ^ 31)) (u32 (b + 2 ^ 31))

unfoldable pub load_size : Memory → ℕ → ℕ
load_size mem doc = u32 (int32le_to_host (load32 mem doc))

-- How far the value at `doc` moves it.
unfoldable pub skip_value : Memory → ℕ → ℕ → ℕ
skip_value mem type doc =
    if type == 0x01 || type == 0x09 || type == 0x11 || type == 0x12
    then u32 (doc + 8)
    else if type == 0x02
    then u32 (doc + (load_size mem doc + 4))
    else if type == 0x03 || type == 0x04
    then u32 (doc + load_size mem doc)
    else if type == 0x05
    then u32 (doc + (load_size mem doc + 5))
    else if type == 0x08
    then u32 (doc + 1)
    else if type == 0x0A || type == 0x7F || type == 0xFF
    then doc
    else if type == 0x10
    then u32 (doc + 4)
    else if type == 0x13
    then u32 (doc + 16)
    else doc

unfoldable pub next_entry : Memory → ℕ → ℕ
next_entry mem doc = skip_value mem (mem doc) (u32 (doc + (strlen mem doc + 1)))

-- The loop; the inner `none` is NULL.
unfoldable pub find_loop : ℕ → Memory → ℕ → ℕ → ℕ → ℕ → Option (Option ℕ)
find_loop zero mem name start size doc = none
find_loop (suc fuel) mem name start size doc = elim (less_signed (sub32 doc start) size) [
  | false ↦ some none
  | true ↦ elim (mem doc == 0) [
    | true ↦ some none
    | false ↦ elim (is_zero (strcmp mem (doc + 1) mem name)) [
      | true ↦ some (some doc)
      | false ↦ find_loop fuel mem name start size (next_entry mem doc)
    ]
  ]
]

-- Each entry has a byte or more of the size.
unfoldable pub bson_find_entry : Memory → ℕ → ℕ → Option (Option ℕ)
bson_find_entry mem doc name =
    let size = load_size mem doc in find_loop (size + 1) mem name doc size (u32 (doc + 4))

-- The result is that of an entry that is there: with NULL the code goes on reading at address 0.
unfoldable pub bson_find : Memory → ℕ → ℕ → Option ℕ
bson_find mem doc name = elim (bson_find_entry mem doc name) [
  | none ↦ none
  | some none ↦ some (u32 (strlen mem 0 + 1))
  | some (some entry) ↦ some (u32 (entry + (strlen mem entry + 1)))
]

unfoldable pub bson_type : Memory → ℕ → ℕ → Option ℕ
bson_type mem doc name = elim (bson_find_entry mem doc name) [
  | none ↦ none
  | some none ↦ some (mem 0)
  | some (some entry) ↦ some (mem entry)
]

-- `buffer` is the address of the local array.
unfoldable pub bson_array_find : Memory → ℕ → ℕ → ℕ → Option ℕ
bson_array_find mem buffer doc index = bson_find (long_to_str mem index 10 buffer 11) doc buffer

unfoldable pub bson_array_type : Memory → ℕ → ℕ → ℕ → Option ℕ
bson_array_type mem buffer doc index = bson_type (long_to_str mem index 10 buffer 11) doc buffer
