-- ===== src/Alloc/Chunks.antt =====
-- lib/alloc.c: a row of chunks in memory, and first fit on the row as a list.
use mathlib.Core.Path.{subst}
use nop.Base.{
  ℕ, ◌+◌, ◌-◌, ◌^◌, ◌≤◌, ◌<◌, ◌≡◌, ◌⊎◌, inl, inr, refl, sym, ap, ◌∙◌, arith, Bool, true, false,
  ◌&&◌, not, Bool-cases, Option, none, some, List, [], ◌∷◌, leb, if◌then◌else◌, Memory, sub32, u32,
}
use nop.Base.Dwords.{load32, store32, load32-store32, load32-store32_apart, store32_outside}
use nop.Alloc.{header_bytes, le_signed, abs_size, take_chunk}

pub record Chunk : Type 0 where
  pub size : ℕ
  pub used : Bool

abbrev pub header : Chunk → ℕ
header c = if c.used then sub32 0 c.size else c.size

-- The size is an `ssize_t`; a used chunk is not empty, since its sign would be lost.
pub record Fits (c : Chunk) : Type 0 where
  pub small : c.size < 2 ^ 31
  pub marked : c.used ≡ true → 0 < c.size

-- The chunks from `at` up to `end`, with nothing between them.
abbrev pub Tiles : Memory → ℕ → ℕ → List Chunk → Type 0
Tiles mem at end [] = at ≡ end
Tiles mem at end (c ∷ cs) =
    (load32 mem at ≡ header c) × Fits c × Tiles mem (at + (header_bytes + c.size)) end cs

-- What is left of a free chunk that gives `n` bytes away.
abbrev pub split_chunk : ℕ → ℕ → List Chunk → List Chunk
split_chunk n size cs =
    if leb size (n + header_bytes)
    then record { size = size; used = true } ∷ cs
    else record { size = n; used = true }
      ∷ record { size = size - header_bytes - n; used = false }
      ∷ cs

-- First fit: the pointer behind the header of the first free chunk with `n` bytes, and the row with
-- that chunk taken.
unfoldable pub first_fit : ℕ → ℕ → List Chunk → Option (ℕ × List Chunk)
first_fit n at [] = none
first_fit n at (c ∷ cs) =
    if not c.used && leb n c.size
    then some (at + header_bytes, split_chunk n c.size cs)
    else elim (first_fit n (at + (header_bytes + c.size)) cs) [
      | none ↦ none
      | some (ptr, cs') ↦ some (ptr, c ∷ cs')
    ]

pub Tiles-le : (mem : Memory) (at end : ℕ) (cs : List Chunk) → Tiles mem at end cs → at ≤ end
Tiles-le mem at end [] r = omega arith
Tiles-le mem at end (c ∷ cs) r =
    omega (arith, Tiles-le mem (at + (header_bytes + c.size)) end cs r.2)

-- Memory outside the row does not matter.
pub load32_frame :
    (mem mem' : Memory) (a : ℕ)
    → ((i : ℕ) → i < 4 → mem' (a + i) ≡ mem (a + i))
    → load32 mem' a ≡ load32 mem a
unfolding load32
load32_frame mem mem' a h = ground (arith, h 0, h 1, h 2, h 3)

pub Tiles-frame :
    (mem mem' : Memory) (at end : ℕ) (cs : List Chunk)
    → ((a : ℕ) → at ≤ a → a < end → mem' a ≡ mem a)
    → Tiles mem at end cs
    → Tiles mem' at end cs
Tiles-frame mem mem' at end [] same r = r
Tiles-frame mem mem' at end (c ∷ cs) same r =
    let le = Tiles-le mem (at + (header_bytes + c.size)) end cs r.2 in
    (
      load32_frame mem mem' at (λ i lt. same (at + i) (omega arith) (omega (arith, le))) ∙ r.0,
      r.1,
      Tiles-frame mem mem' (at + (header_bytes + c.size)) end cs
          (λ a ge lt. same a (omega arith) lt) r.2,
    )

-- How the code reads a header.
pub le_signed-header :
    (n : ℕ) (c : Chunk)
    → n < 2 ^ 31
    → Fits c
    → le_signed n (header c) ≡ (not c.used && leb n c.size)
unfolding le_signed
le_signed-header n c h f = elim (Bool-cases c.used) [
  | inl u ↦ rw u (ground (arith, f.small, f.marked u))
  | inr u ↦ rw u (ground (arith, f.small))
]

pub abs_size-header : (c : Chunk) → Fits c → abs_size (header c) ≡ c.size
unfolding abs_size
abs_size-header c f = elim (Bool-cases c.used) [
  | inl u ↦ rw u (ground (arith, f.small, f.marked u))
  | inr u ↦ rw u (ground (arith, f.small))
]

-- A change of the bytes of a row that leaves another row there.
pub record Leaves (mem : Memory) (at end : ℕ) (mem' : Memory) (cs : List Chunk) : Type 0 where
  pub row : Tiles mem' at end cs
  pub frame : (a : ℕ) → (a < at) ⊎ (end ≤ a) → mem' a ≡ mem a

take_all :
    (mem : Memory) (n at size : ℕ) (cs : List Chunk)
    → load32 mem at ≡ size
    → leb size (n + header_bytes) ≡ true
    → n ≤ size
    → size < 2 ^ 31
    → (take_chunk mem n at ≡ store32 mem at (sub32 0 size))
      × (split_chunk n size cs ≡ record { size = size; used = true } ∷ cs)
unfolding take_chunk
take_all mem n at size cs e fits le small =
    let fits' : leb size (u32 (n + header_bytes)) ≡ true = ground arith in
    (rw (e, fits') refl, rw fits refl)

take_part :
    (mem : Memory) (n at size : ℕ) (cs : List Chunk)
    → load32 mem at ≡ size
    → leb size (n + header_bytes) ≡ false
    → size < 2 ^ 31
    → (take_chunk mem n at
        ≡ store32 (store32 mem (at + header_bytes + n) (size - header_bytes - n)) at (sub32 0 n))
      × (split_chunk n size cs
          ≡ record { size = n; used = true }
            ∷ record { size = size - header_bytes - n; used = false }
            ∷ cs)
unfolding take_chunk
take_part mem n at size cs e part small =
    let part' : leb size (u32 (n + header_bytes)) ≡ false = ground arith in
    let left : sub32 (sub32 size header_bytes) n ≡ size - header_bytes - n = ground arith in
    (rw (e, part', left) refl, rw part refl)

-- Taking a chunk leaves the row that `split_chunk` says.
pub take_chunk-Leaves :
    (mem : Memory) (n at end size : ℕ) (cs : List Chunk)
    → 0 < n
    → n ≤ size
    → size < 2 ^ 31
    → load32 mem at ≡ size
    → Tiles mem (at + (header_bytes + size)) end cs
    → Leaves mem at end (take_chunk mem n at) (split_chunk n size cs)
take_chunk-Leaves mem n at end size cs pos le small e r =
    let room = Tiles-le mem (at + (header_bytes + size)) end cs r in
    elim (Bool-cases (leb size (n + header_bytes))) [
      | inl all ↦
          let (taken, split) = take_all mem n at size cs e all le small in
          rw (taken, split)
            (record {
              row = (
                load32-store32 mem at (sub32 0 size) ∙ omega arith,
                record { small = small; marked = λ u. omega arith },
                Tiles-frame mem (store32 mem at (sub32 0 size)) (at + (header_bytes + size)) end cs
                    (λ a ge lt. store32_outside mem at (sub32 0 size) a (inl (omega arith))) r,
              );
              frame = λ a out. store32_outside mem at (sub32 0 size) a (ground (arith, room));
            })
      | inr part ↦
          let (taken, split) = take_part mem n at size cs e part small in
          let rest = size - header_bytes - n in
          let next = at + header_bytes + n in
          let mem1 = store32 mem next rest in
          let big : n + header_bytes < size = ground arith in
          let next_at : next ≡ at + (header_bytes + n) = omega arith in
          let tail_at : at + (header_bytes + size)
              ≡ at + (header_bytes + n) + (header_bytes + rest) =
            omega arith in
          let same = λ (a : ℕ) (out : (a < at) ⊎ (at + (header_bytes + size) ≤ a)).
            store32_outside mem1 at (sub32 0 n) a (ground arith)
            ∙ store32_outside mem next rest a (ground arith) in
          rw (taken, split)
            (record {
              row = (
                load32-store32 mem1 at (sub32 0 n) ∙ omega arith,
                record { small = omega arith; marked = λ u. pos },
                (
                  ap (load32 (store32 mem1 at (sub32 0 n))) (sym next_at)
                      ∙ load32-store32_apart mem1 at (sub32 0 n) next (inl (omega arith))
                      ∙ load32-store32 mem next rest
                      ∙ omega arith,
                  record { small = omega arith; marked = λ u. cc },
                  Tiles-frame mem (store32 mem1 at (sub32 0 n)) _ end cs
                      (λ a ge lt. same a (inr (omega (arith, tail_at))))
                      (subst (λ (x : ℕ). Tiles mem x end cs) tail_at r),
                ),
              );
              frame = λ a out. same a (ground (arith, room));
            })
    ]
