-- ===== src/Text/Cells.antt =====
-- The frame buffer cell by cell: what a write, a cleared row and a scroll leave, and that they stay
-- inside the buffer.
use nop.Base.{
  ℕ, zero, suc, ◌+◌, ◌-◌, ◌*◌, ◌^◌, ◌≤◌, ◌<◌, ◌≡◌, ◌⊎◌, refl, ◌∙◌, arith, ◌&&◌, ltb, leb, ◌==◌,
  if◌then◌else◌, Memory, u16,
}
use nop.CString.{memmove}
use nop.CString.Copy.{memmove-copied}
use nop.Text.{Text, put_cell, clear_row, text_scroll}

-- `text_ptr[i]`
abbrev pub cell : Memory → ℕ → ℕ → ℕ
cell mem ptr i = mem (ptr + 2 * i) + 2 ^ 8 * mem (ptr + 2 * i + 1)

-- A byte outside the cells from `i` up to `j`.
abbrev pub Outside : ℕ → ℕ → ℕ → ℕ → Type 0
Outside ptr i j a = (a < ptr + 2 * i) ⊎ (ptr + 2 * j ≤ a)

pub cell-put_cell :
    (mem : Memory) (ptr i v j : ℕ)
    → cell (put_cell mem ptr i v) ptr j ≡ (if i == j then u16 v else cell mem ptr j)
unfolding put_cell
cell-put_cell mem ptr i v j = ground arith

pub put_cell-Outside :
    (mem : Memory) (ptr i v a : ℕ) → Outside ptr i (i + 1) a → put_cell mem ptr i v a ≡ mem a
unfolding put_cell
put_cell-Outside mem ptr i v a h = ground arith

pub cell-clear_row :
    (n : ℕ) (mem : Memory) (ptr i color j : ℕ)
    → cell (clear_row n mem ptr i color) ptr j
      ≡ (if leb i j && ltb j (i + n) then u16 color else cell mem ptr j)
unfolding clear_row
cell-clear_row zero mem ptr i color j = ground arith
cell-clear_row (suc n) mem ptr i color j =
    cell-clear_row n (put_cell mem ptr i color) ptr (i + 1) color j
    ∙ ground (arith, cell-put_cell mem ptr i color j)

pub clear_row-Outside :
    (n : ℕ) (mem : Memory) (ptr i color a : ℕ)
    → Outside ptr i (i + n) a
    → clear_row n mem ptr i color a ≡ mem a
unfolding clear_row
clear_row-Outside zero mem ptr i color a h = refl
clear_row-Outside (suc n) mem ptr i color a h =
    clear_row-Outside n (put_cell mem ptr i color) ptr (i + 1) color a (ground arith)
    ∙ put_cell-Outside mem ptr i color a (ground arith)

cell-memmove :
    (mem : Memory) (ptr w n j : ℕ)
    → cell (memmove mem ptr (ptr + 2 * w) (2 * n)) ptr j
      ≡ (if ltb j n then cell mem ptr (j + w) else cell mem ptr j)
cell-memmove mem ptr w n j = ground (
  arith,
  memmove-copied (2 * n) mem ptr (ptr + 2 * w) (ptr + 2 * j),
  memmove-copied (2 * n) mem ptr (ptr + 2 * w) (ptr + 2 * j + 1),
)

-- A scroll moves every cell up by a row, and clears the last row.
pub cell-text_scroll :
    (t : Text) (mem : Memory) (j : ℕ)
    → cell (text_scroll t mem) t.ptr j ≡ (
        if ltb j (t.width * (t.height - 1))
        then cell mem t.ptr (j + t.width)
        else if ltb j (t.width * (t.height - 1) + t.width)
        then u16 t.color
        else cell mem t.ptr j)
unfolding text_scroll
cell-text_scroll t mem j =
    let n = t.width * (t.height - 1) in
    cell-clear_row t.width (memmove mem t.ptr (t.ptr + 2 * t.width) (2 * n)) t.ptr n t.color j
    ∙ ground (arith, cell-memmove mem t.ptr t.width n j)

pub text_scroll-Outside :
    (t : Text) (mem : Memory) (a : ℕ)
    → Outside t.ptr 0 (t.width * (t.height - 1) + t.width) a
    → text_scroll t mem a ≡ mem a
unfolding text_scroll
text_scroll-Outside t mem a h =
    let n = t.width * (t.height - 1) in
    clear_row-Outside t.width (memmove mem t.ptr (t.ptr + 2 * t.width) (2 * n)) t.ptr n t.color a
      (ground arith)
    ∙ memmove-copied (2 * n) mem t.ptr (t.ptr + 2 * t.width) a
    ∙ ground arith
