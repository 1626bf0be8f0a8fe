-- ===== src/Text.antt =====
-- nop/arch/i386/tasks/text.c: the text console. The frame buffer is byte memory with 16-bit cells from
-- `ptr` on; the sizes and the cursor are `int` values that are not negative.
pub mod Cells
pub mod Screen
pub mod Laws
mod Examples
use nop.Base.{
  ℕ, zero, suc, ◌+◌, ◌-◌, ◌*◌, ◌/◌, ◌%◌, ◌^◌, bit_or, Bool, true, false, ◌||◌, ltb, leb, ◌==◌,
  if◌then◌else◌, Memory, write, u8,
}
use nop.CString.{memmove}

pub record Text : Type 0 where
  pub ptr : ℕ
  pub width : ℕ
  pub height : ℕ
  pub x : ℕ
  pub y : ℕ
  pub color : ℕ

unfoldable pub text_init : ℕ → ℕ → ℕ → ℕ → Text
text_init ptr width height color = record {
  ptr = ptr;
  width = width;
  height = height;
  x = 0;
  y = 0;
  color = color;
}

-- `text_ptr[i] = v`
unfoldable pub put_cell : Memory → ℕ → ℕ → ℕ → Memory
put_cell mem ptr i v = write (write mem (ptr + 2 * i) (u8 v)) (ptr + 2 * i + 1) (u8 (v / 2 ^ 8))

-- The loop of `text_scroll`, with the rounds that are left.
unfoldable pub clear_row : ℕ → Memory → ℕ → ℕ → ℕ → Memory
clear_row zero mem ptr i color = mem
clear_row (suc left) mem ptr i color = clear_row left (put_cell mem ptr i color) ptr (i + 1) color

unfoldable pub text_scroll : Text → Memory → Memory
text_scroll t mem =
    let mem' = memmove mem t.ptr (t.ptr + 2 * t.width) (2 * (t.width * (t.height - 1))) in
    clear_row t.width mem' t.ptr (t.width * (t.height - 1)) t.color

-- `(uint16_t)(chr)`, which extends the sign of the `char`
unfoldable pub extended : ℕ → ℕ
extended chr = if leb 0x80 chr then 0xFF00 + chr else chr

abbrev pub newline : ℕ
newline = 10

-- The `if` of `text_putchar`: whether the cursor goes to the next line, and where it is then.
unfoldable pub breaks : Text → ℕ → Bool
breaks t chr = leb t.width t.x || chr == newline

unfoldable pub next_line : Text → Memory → Text × Memory
next_line t mem =
    if leb t.height (t.y + 1)
    then (record t { x = 0 }, text_scroll t mem)
    else (record t { x = 0; y = t.y + 1 }, mem)

unfoldable pub put_here : Text → ℕ → Memory → Text × Memory
put_here t chr mem = (
  record t { x = t.x + 1 },
  put_cell mem t.ptr (t.x + t.y * t.width) (bit_or (extended chr) t.color),
)

unfoldable pub text_putchar : Text → ℕ → Memory → Text × Memory
text_putchar t chr mem =
    if breaks t chr
    then (let (t', mem') = next_line t mem in
        if chr == newline then (t', mem') else put_here t' chr mem')
    else put_here t chr mem

-- `n` characters of `str`, which lies outside the frame buffer.
unfoldable pub text_write : Text → Memory → ℕ → ℕ → Memory → Text × Memory
text_write t str s zero mem = (t, mem)
text_write t str s (suc n) mem =
    let (t', mem') = text_putchar t (str s) mem in text_write t' str (s + 1) n mem'
