-- ===== src/Page/Mark.antt =====
-- `page_mark`: after the three loops exactly the pages from `start` up to `end` carry the mark.
use nop.Base.{
  ℕ, zero, suc, ◌+◌, ◌-◌, ◌%◌, ◌<◌, ◌≤◌, ◌≡◌, refl, ◌⊎◌, inl, inr, arith, not, ◌&&◌, ltb, leb, ◌==◌,
  if◌then◌else◌, Bool-cases, ◌>>>◌, Memory, IsBytes, write, write-IsBytes,
}
use nop.Page.{is_used, set_page, mark_up, mark_down, mark_bytes, page_mark}
use nop.Page.Bitmap.{is_used-set_page, is_used-write, set_page-IsBytes, filler}

-- `after` is `before` with the pages from `lo` up to `hi` marked.
pub record IsMarked (lo hi value : ℕ) (before after : Memory) : Type 0 where
  pub bytes : IsBytes after
  pub pages :
      (q : ℕ)
      → is_used after q ≡ (if leb lo q && ltb q hi then not (value == 0) else is_used before q)

module _ (value : ℕ) where
  IsMarked-none : {lo hi : ℕ} {bm : Memory} → hi ≤ lo → IsBytes bm → IsMarked lo hi value bm bm
  IsMarked-none {lo} {hi} h bytes = record { bytes = bytes; pages = λ q. ground arith }

  IsMarked-page :
      (bm : Memory) (p : ℕ) → IsBytes bm → IsMarked p (p + 1) value bm (set_page bm p value)
  IsMarked-page bm p bytes = record {
    bytes = set_page-IsBytes bm p value bytes;
    pages = λ q. ground (arith, is_used-set_page bm p value q bytes);
  }

  IsMarked-byte :
      (bm : Memory) (p : ℕ)
      → p % 8 ≡ 0
      → IsBytes bm
      → IsMarked p (p + 8) value bm (write bm (p >>> 3) (filler value))
  IsMarked-byte bm p h bytes = record {
    bytes = write-IsBytes bm (p >>> 3) (filler value) bytes (ground arith);
    pages = λ q. ground (arith, is_used-write bm (p >>> 3) value q);
  }

  module _ {lo mid hi : ℕ} {bm bm1 bm2 : Memory} where
    -- Two ranges that meet make one, in either order of marking.
    IsMarked-up :
        lo ≤ mid
        → mid ≤ hi
        → IsMarked lo mid value bm bm1
        → IsMarked mid hi value bm1 bm2
        → IsMarked lo hi value bm bm2
    IsMarked-up h k a b = record {
      bytes = b.bytes;
      pages = λ q. ground (arith, a.pages q, b.pages q);
    }

    IsMarked-down :
        lo ≤ mid
        → mid ≤ hi
        → IsMarked mid hi value bm bm1
        → IsMarked lo mid value bm1 bm2
        → IsMarked lo hi value bm bm2
    IsMarked-down h k a b = record {
      bytes = b.bytes;
      pages = λ q. ground (arith, a.pages q, b.pages q);
    }

  record IsRaised (start end : ℕ) (bm : Memory) (out : Memory × ℕ) : Type 0 where
    marked : IsMarked start out.1 value bm out.0
    above : start ≤ out.1
    below : (out.1 ≤ end) ⊎ (out.1 ≡ start)
    aligned : (out.1 % 8 ≡ 0) ⊎ (end ≤ out.1)

  mark_up-IsRaised :
      (fuel : ℕ) (bm : Memory) (start end : ℕ)
      → IsBytes bm
      → (start % 8 ≡ 0) ⊎ (8 ≤ fuel + start % 8)
      → IsRaised start end bm (mark_up fuel bm start end value)
  unfolding mark_up
  mark_up-IsRaised zero bm start end bytes h = record {
    marked = IsMarked-none (omega arith) bytes;
    above = omega arith;
    below = inr refl;
    aligned = omega arith;
  }
  mark_up-IsRaised (suc fuel) bm start end bytes h =
      elim (Bool-cases (not (start % 8 == 0) && ltb start end)) [
        | inl more ↦
            let rest =
              mark_up-IsRaised fuel (set_page bm start value) (start + 1) end
                (set_page-IsBytes bm start value bytes) (ground arith) in
            rw (more, mark_up)
              (record {
                marked =
                    IsMarked-up (omega arith) rest.above (IsMarked-page bm start bytes) rest.marked;
                above = omega (arith, rest.above);
                below = ground (arith, rest.below);
                aligned = rest.aligned;
              })
        | inr stop ↦
            rw (stop, mark_up)
              (record {
                marked = IsMarked-none (omega arith) bytes;
                above = omega arith;
                below = inr refl;
                aligned = ground arith;
              })
      ]

  record IsLowered (start end : ℕ) (bm : Memory) (out : Memory × ℕ) : Type 0 where
    marked : IsMarked out.1 end value bm out.0
    below : out.1 ≤ end
    above : (start ≤ out.1) ⊎ (out.1 ≡ end)
    aligned : (out.1 % 8 ≡ 0) ⊎ (out.1 ≤ start)

  mark_down-IsLowered :
      (fuel : ℕ) (bm : Memory) (start end : ℕ)
      → IsBytes bm
      → end % 8 ≤ fuel
      → IsLowered start end bm (mark_down fuel bm start end value)
  unfolding mark_down
  mark_down-IsLowered zero bm start end bytes h = record {
    marked = IsMarked-none (omega arith) bytes;
    below = omega arith;
    above = inr refl;
    aligned = omega arith;
  }
  mark_down-IsLowered (suc fuel) bm start end bytes h =
      elim (Bool-cases (not (end % 8 == 0) && ltb start end)) [
        | inl more ↦
            let some_page : start < end = ground arith in
            let top : end - 1 + 1 ≡ end = omega arith in
            let rest =
              mark_down-IsLowered fuel (set_page bm (end - 1) value) start (end - 1)
                (set_page-IsBytes bm (end - 1) value bytes) (ground arith) in
            let last = rw top at (IsMarked-page bm (end - 1) bytes) in
            rw (more, mark_down)
              (record {
                marked = IsMarked-down rest.below (omega arith) last rest.marked;
                below = omega (arith, rest.below);
                above = ground (arith, rest.above);
                aligned = rest.aligned;
              })
        | inr stop ↦
            rw (stop, mark_down)
              (record {
                marked = IsMarked-none (omega arith) bytes;
                below = omega arith;
                above = inr refl;
                aligned = ground arith;
              })
      ]

  mark_bytes-IsMarked :
      (fuel : ℕ) (bm : Memory) (start end : ℕ)
      → IsBytes bm
      → (end ≤ start) ⊎ ((start % 8 ≡ 0) × (end % 8 ≡ 0) × (end ≤ start + fuel))
      → IsMarked start end value bm (mark_bytes fuel bm start end value)
  unfolding mark_bytes
  mark_bytes-IsMarked zero bm start end bytes h = IsMarked-none (omega arith) bytes
  mark_bytes-IsMarked (suc fuel) bm start end bytes h = elim (Bool-cases (ltb start end)) [
    | inl more ↦
        let first = IsMarked-byte bm start (ground arith) bytes in
        rw (more, mark_bytes)
          (IsMarked-up (omega arith) (ground arith) first
            (mark_bytes-IsMarked fuel _ (start + 8) end first.bytes (ground arith)))
    | inr stop ↦ rw (stop, mark_bytes) (IsMarked-none (ground arith) bytes)
  ]

-- `page_mark` marks the pages from `start` up to `end` as `value` says, none if `end` is not above
-- `start`, and leaves every other page as it was.
pub page_mark-IsMarked :
    (bm : Memory) (start end value : ℕ)
    → IsBytes bm
    → IsMarked start end value bm (page_mark bm start end value)
unfolding page_mark
page_mark-IsMarked bm start end value bytes = record {
  bytes = rest.bytes;
  pages = λ q. ground (
    arith,
    up.marked.pages q,
    down.marked.pages q,
    rest.pages q,
    up.above,
    up.below,
    down.above,
    down.below,
  );
}
  where
    raised : Memory × ℕ
    raised = mark_up 8 bm start end value

    up : IsRaised value start end bm raised
    up = mark_up-IsRaised value 8 bm start end bytes (omega arith)

    lowered : Memory × ℕ
    lowered = mark_down 8 raised.0 raised.1 end value

    down : IsLowered value raised.1 end raised.0 lowered
    down = mark_down-IsLowered value 8 raised.0 raised.1 end up.marked.bytes (omega arith)

    rest :
        IsMarked raised.1 lowered.1 value lowered.0
          (mark_bytes (lowered.1 - raised.1) lowered.0 raised.1 lowered.1 value)
    rest =
        mark_bytes-IsMarked value (lowered.1 - raised.1) lowered.0 raised.1 lowered.1
          down.marked.bytes (ground (arith, up.aligned, down.aligned, up.below, down.below))
