-- ===== src/Alloc/Scan.antt =====
-- lib/alloc.c: the inner loop of `malloc_once` is first fit on the chunks of a block.
use nop.Base.{
  ℕ, zero, suc, ◌+◌, ◌-◌, ◌^◌, ◌≤◌, ◌<◌, ◌≡◌, inl, inr, refl, ap, ◌∙◌, arith, true, false, ◌&&◌,
  not, Bool-cases, none, some, List, [], ◌∷◌, ltb, leb, Memory,
}
use nop.Alloc.{header_bytes, abs_size, take_chunk, le_signed, Search, hit, miss, scan_chunks}
use nop.Alloc.Chunks.{
  Chunk, Tiles, Leaves, split_chunk, first_fit, Tiles-le, load32_frame, le_signed-header,
  abs_size-header, take_chunk-Leaves,
}

-- What a scan of a row from `at` on may answer.
pub data IsScan (mem : Memory) (n at end : ℕ) (cs : List Chunk) : Search → Type 0 where
  found :
      (ptr : ℕ) (mem' : Memory) (cs' : List Chunk)
      → first_fit n at cs ≡ some (ptr, cs')
      → Leaves mem at end mem' cs'
      → IsScan mem n at end cs (hit ptr mem')
  missed : first_fit n at cs ≡ none → IsScan mem n at end cs miss

skip_chunk :
    (n at : ℕ) (c : Chunk) (cs : List Chunk)
    → (not c.used && leb n c.size) ≡ false
    → first_fit n at (c ∷ cs) ≡ (elim (first_fit n (at + (header_bytes + c.size)) cs) [
      | none ↦ none
      | some (ptr, cs') ↦ some (ptr, c ∷ cs')
    ])
unfolding first_fit
skip_chunk n at c cs e = rw e refl

-- A scan behind a chunk that is too small, or used.
IsScan-skip :
    (mem : Memory) (n at end : ℕ) (c : Chunk) (cs : List Chunk) {s : Search}
    → (not c.used && leb n c.size) ≡ false
    → Tiles mem at end (c ∷ cs)
    → IsScan mem n (at + (header_bytes + c.size)) end cs s
    → IsScan mem n at end (c ∷ cs) s
IsScan-skip mem n at end c cs skipped r (missed e) =
    missed (skip_chunk n at c cs skipped ∙ rw e refl)
IsScan-skip mem n at end c cs skipped r (found ptr mem' cs' e l) =
    found ptr mem' (c ∷ cs') (skip_chunk n at c cs skipped ∙ rw e refl) (record {
      row = (
        load32_frame mem mem' at (λ i lt. l.frame (at + i) (inl (omega arith))) ∙ r.0,
        r.1,
        l.row,
      );
      frame = λ a out. l.frame a (ground arith);
    })

pub scan_chunks-IsScan :
    (fuel : ℕ) (mem : Memory) (n start size at end : ℕ) (cs : List Chunk)
    → 0 < n
    → n < 2 ^ 31
    → start ≤ at
    → start + size ≡ end
    → end - at < fuel
    → Tiles mem at end cs
    → IsScan mem n at end cs (scan_chunks fuel mem n start size at)
unfolding scan_chunks
scan_chunks-IsScan zero mem n start size at end cs pos small ge e lt r = absurd (omega arith)
scan_chunks-IsScan (suc fuel) mem n start size at end [] pos small ge e lt r =
    let over : ltb (at - start) size ≡ false = ground arith in
    rw (over, scan_chunks) (missed (unfold first_fit in refl))
scan_chunks-IsScan (suc fuel) mem n start size at end (c ∷ cs) pos small ge e lt r =
    let le = Tiles-le mem (at + (header_bytes + c.size)) end cs r.2 in
    let more : ltb (at - start) size ≡ true = ground arith in
    let fits = ap (le_signed n) r.0 ∙ le_signed-header n c small r.1 in
    let width = ap abs_size r.0 ∙ abs_size-header c r.1 in
    elim (Bool-cases (not c.used && leb n c.size)) [
      | inl yes_fit ↦
          rw (more, fits ∙ yes_fit, scan_chunks)
            (found (at + header_bytes) (take_chunk mem n at) (split_chunk n c.size cs)
              (unfold first_fit in rw yes_fit refl)
              (take_chunk-Leaves mem n at end c.size cs pos (ground arith) r.1.small
                (r.0 ∙ ground arith) r.2))
      | inr no_fit ↦
          rw (more, fits ∙ no_fit, width, scan_chunks)
            (IsScan-skip mem n at end c cs no_fit r (
              scan_chunks-IsScan fuel mem n start size (at + (header_bytes + c.size)) end cs pos
                small (omega arith) e (omega arith) r.2))
    ]
