-- ===== src/Text/Screen.antt =====
-- A screen of rows and columns that knows nothing of memory, and how the console's buffer shows it.
use nop.Base.{
  ℕ, zero, suc, ◌+◌, ◌-◌, ◌*◌, ◌≤◌, ◌<◌, ◌≡◌, inl, inr, refl, ap, ◌∙◌, arith, ◌&&◌, true, false,
  Bool-cases, bit_or, ltb, ◌==◌, if◌then◌else◌, Memory, u16,
}
use nop.Text.{Text, text_scroll, extended, newline}
use nop.Text.Cells.{cell, cell-text_scroll}

pub record Screen : Type 0 where
  pub glyph : ℕ → ℕ → ℕ
  pub row : ℕ
  pub column : ℕ

module _ (width height color : ℕ) where
  -- The next line, or the same one after all rows have moved up by one.
  unfoldable pub line_feed : Screen → Screen
  line_feed s =
      if ltb (s.row + 1) height then record s { row = s.row + 1; column = 0 } else record s {
        column = 0;
        glyph = λ r c. if ltb (r + 1) height then s.glyph (r + 1) c else u16 color;
      }

  unfoldable pub type_glyph : ℕ → Screen → Screen
  type_glyph chr s = record s {
    column = s.column + 1;
    glyph = λ r c.
        if r == s.row && c == s.column then u16 (bit_or (extended chr) color) else s.glyph r c;
  }

  -- A newline feeds, any other character is typed, behind a feed at the end of a line.
  unfoldable pub type_char : ℕ → Screen → Screen
  type_char chr s =
      if chr == newline
      then line_feed s
      else type_glyph chr (if ltb s.column width then s else line_feed s)

  unfoldable pub type_text : (ℕ → ℕ) → ℕ → ℕ → Screen → Screen
  type_text str p zero s = s
  type_text str p (suc n) s = type_text str (p + 1) n (type_char (str p) s)

-- The cursor is in a row of the screen, and at most behind the last column.
pub record IsValid (t : Text) : Type 0 where
  pub column : t.x ≤ t.width
  pub row : t.y < t.height
  pub wide : 0 < t.width

pub record Shows (t : Text) (mem : Memory) (s : Screen) : Type 0 where
  pub row : t.y ≡ s.row
  pub column : t.x ≡ s.column
  pub cells :
      (r c : ℕ) → r < t.height → c < t.width → cell mem t.ptr (r * t.width + c) ≡ s.glyph r c

pub row_below : (w r c r' : ℕ) → c < w → r < r' → r * w + c < r' * w
row_below w r c r' h p = grind arith

-- Two places of a screen share a cell only if they are the same.
pub index_eq :
    (w r c r' c' : ℕ) → c < w → c' < w → (r * w + c == r' * w + c') ≡ (r == r' && c == c')
index_eq w r c r' c' h h' = ground (arith, row_below w r c r', row_below w r' c' r)

pub index-lt : (w h r c : ℕ) → r < h → c < w → r * w + c < w * h
index-lt w h r c p q = grind arith

pub index-le :
    (w h r c : ℕ)
    → h ≤ r + 1
    → r < h
    → c < w
    → (w * (h - 1) ≤ r * w + c) × (r * w + c < w * (h - 1) + w)
index-le w h r c p p' q = let e : h ≡ r + 1 = omega arith in rw e (grind arith)

next_row : (w r c : ℕ) → r * w + c + w ≡ (r + 1) * w + c
next_row w r c = grind arith

pub whole : (w h : ℕ) → 0 < h → w * (h - 1) + w ≡ w * h
whole w zero p = absurd (omega arith)
whole w (suc h) p = let e : suc h - 1 ≡ h = omega arith in rw e (grind arith)

pub scrolled_glyph :
    (t : Text) (mem : Memory) (s : Screen) (r c : ℕ)
    → Shows t mem s
    → r < t.height
    → c < t.width
    → cell (text_scroll t mem) t.ptr (r * t.width + c)
      ≡ (if ltb (r + 1) t.height then s.glyph (r + 1) c else u16 t.color)
scrolled_glyph t mem s r c sh hr hc =
    cell-text_scroll t mem (r * t.width + c) ∙ (elim (Bool-cases (ltb (r + 1) t.height)) [
      | inl more ↦
          let inside : ltb (r * t.width + c) (t.width * (t.height - 1)) ≡ true =
            ground (arith, index-lt t.width (t.height - 1) r c) in
          rw (more, inside)
            (ap (cell mem t.ptr) (next_row t.width r c) ∙ sh.cells (r + 1) c (ground arith) hc)
      | inr last ↦
          let row = index-le t.width t.height r c (ground arith) hr hc in
          let inside : ltb (r * t.width + c) (t.width * (t.height - 1)) ≡ false = ground arith in
          let below : ltb (r * t.width + c) (t.width * (t.height - 1) + t.width) ≡ true =
            ground arith in
          rw (last, inside, below) refl
    ])
