-- ===== src/Text/Laws.antt =====
-- The console types on its screen as a terminal does, and writes nowhere else.
use mathlib.Core.Path.{subst}
use nop.Base.{
  ℕ, zero, suc, ◌+◌, ◌*◌, ◌<◌, ◌≡◌, inl, inr, refl, ap, ◌∙◌, arith, true, false, Bool-cases, bit_or,
  ltb, leb, ◌==◌, Memory,
}
use nop.Text.{Text, extended, newline, breaks, next_line, put_here, text_putchar, text_write}
use nop.Text.Cells.{Outside, cell-put_cell, put_cell-Outside, text_scroll-Outside}
use nop.Text.Screen.{
  Screen, line_feed, type_glyph, type_char, type_text, IsValid, Shows, index_eq, index-lt, whole,
  scrolled_glyph,
}

-- What an operation leaves: a screen shown by a valid console with the same buffer, and every byte
-- outside the buffer as it was.
pub record Leaves (t : Text) (mem : Memory) (out : Text × Memory) (s : Screen) : Type 0 where
  pub valid : IsValid out.0
  pub shows : Shows out.0 out.1 s
  pub same : out.0 ≡ record t { x = out.0.x; y = out.0.y }
  pub frame : (a : ℕ) → Outside t.ptr 0 (t.width * t.height) a → out.1 a ≡ mem a

next_line-Leaves :
    (t : Text) (mem : Memory) (s : Screen)
    → IsValid t
    → Shows t mem s
    → Leaves t mem (next_line t mem) (line_feed t.width t.height t.color s)
unfolding next_line line_feed
next_line-Leaves t mem s v sh = elim (Bool-cases (leb t.height (t.y + 1))) [
  | inr room ↦
      let room' : ltb (s.row + 1) t.height ≡ true = ground (arith, sh.row) in
      rw (room, room')
        (record {
          valid = record { column = omega arith; row = ground arith; wide = v.wide };
          shows = record { row = omega (arith, sh.row); column = refl; cells = sh.cells };
          same = refl;
          frame = λ a h. refl;
        })
  | inl full ↦
      let full' : ltb (s.row + 1) t.height ≡ false = ground (arith, sh.row) in
      rw (full, full')
        (record {
          valid = record { column = omega arith; row = v.row; wide = v.wide };
          shows = record {
            row = sh.row;
            column = refl;
            cells = λ r c hr hc. scrolled_glyph t mem s r c sh hr hc;
          };
          same = refl;
          frame = λ a h.
              text_scroll-Outside t mem a (rw (whole t.width t.height (omega (arith, v.row))) h);
        })
]

put_here-Leaves :
    (t : Text) (chr : ℕ) (mem : Memory) (s : Screen)
    → IsValid t
    → t.x < t.width
    → Shows t mem s
    → Leaves t mem (put_here t chr mem) (type_glyph t.width t.height t.color chr s)
unfolding put_here type_glyph
put_here-Leaves t chr mem s v room sh = record {
  valid = record { column = omega arith; row = v.row; wide = v.wide };
  shows = record {
    row = sh.row;
    column = omega (arith, sh.column);
    cells = λ r c hr hc.
        cell-put_cell mem t.ptr (t.x + t.y * t.width) (bit_or (extended chr) t.color)
          (r * t.width + c)
        ∙ ground
            (arith, index_eq t.width t.y t.x r c room hc, sh.cells r c hr hc, sh.row, sh.column);
  };
  same = refl;
  frame = λ a h.
      put_cell-Outside mem t.ptr (t.x + t.y * t.width) _ a
        (ground (arith, index-lt t.width t.height t.y t.x v.row room));
}

-- A step from a console that an earlier step left.
Leaves-then :
    {t : Text} {mem : Memory} {mid out : Text × Memory} {s s' : Screen}
    → Leaves t mem mid s
    → Leaves mid.0 mid.1 out s'
    → Leaves t mem out s'
Leaves-then {t} {mem} {mid} {out} l l' = record {
  valid = l'.valid;
  shows = l'.shows;
  same = l'.same ∙ ap (λ (u : Text). record u { x = out.0.x; y = out.0.y }) l.same;
  frame = λ a h. l'.frame a (rw l.same h) ∙ l.frame a h;
}

column-line_feed : (w h color : ℕ) (s : Screen) → (line_feed w h color s).column ≡ 0
unfolding line_feed
column-line_feed w h color s = ground arith

-- The place behind a line feed is typed on by the same rules as the console before it.
feed_and_type :
    (t : Text) (chr : ℕ) (mem : Memory) {mid : Text × Memory} {s : Screen}
    → Leaves t mem mid s
    → s.column ≡ 0
    → Leaves t mem (put_here mid.0 chr mid.1) (type_glyph t.width t.height t.color chr s)
feed_and_type t chr mem {mid} {s} l start = Leaves-then l (
    subst (Leaves mid.0 mid.1 (put_here mid.0 chr mid.1))
      (ap (λ (u : Text). type_glyph u.width u.height u.color chr s) l.same)
      (put_here-Leaves mid.0 chr mid.1 s l.valid (omega (arith, l.shows.column, l.valid.wide))
        l.shows))

text_putchar-Leaves :
    (t : Text) (chr : ℕ) (mem : Memory) (s : Screen)
    → IsValid t
    → Shows t mem s
    → Leaves t mem (text_putchar t chr mem) (type_char t.width t.height t.color chr s)
unfolding text_putchar type_char breaks
text_putchar-Leaves t chr mem s v sh =
    let fed = next_line-Leaves t mem s v sh in
    elim (Bool-cases (chr == newline)) [
      | inl feed ↦ elim (Bool-cases (leb t.width t.x)) [
        | inl end ↦ rw (feed, end) fed
        | inr room ↦ rw (feed, room) fed
      ]
      | inr other ↦ elim (Bool-cases (leb t.width t.x)) [
        | inl end ↦
            let full : ltb s.column t.width ≡ false = ground (arith, sh.column) in
            rw (other, end, full)
              (feed_and_type t chr mem fed (column-line_feed t.width t.height t.color s))
        | inr room ↦
            let free : ltb s.column t.width ≡ true = ground (arith, sh.column) in
            rw (other, room, free) (put_here-Leaves t chr mem s v (ground arith) sh)
      ]
    ]

-- On a console that shows a screen, with its cursor in a row of it, `text_write` types the characters
-- as a terminal does: it feeds a line at a newline and behind a full line, moves the rows up at the
-- end of the screen, keeps the cursor in a row, and changes no byte outside the frame buffer.
pub text_write-Leaves :
    (n : ℕ) (t : Text) (str : Memory) (p : ℕ) (mem : Memory) (s : Screen)
    → IsValid t
    → Shows t mem s
    → Leaves t mem (text_write t str p n mem) (type_text t.width t.height t.color str p n s)
unfolding text_write type_text
text_write-Leaves zero t str p mem s v sh = record {
  valid = v;
  shows = sh;
  same = refl;
  frame = λ a h. refl;
}
text_write-Leaves (suc n) t str p mem s v sh =
    let (t', mem') = text_putchar t (str p) mem in
    let l = text_putchar-Leaves t (str p) mem s v sh in
    let s' = type_char t.width t.height t.color (str p) s in
    Leaves-then l (
      subst (Leaves t' mem' (text_write t' str (p + 1) n mem'))
        (ap (λ (u : Text). type_text u.width u.height u.color str (p + 1) n s') l.same)
        (text_write-Leaves n t' str (p + 1) mem' s' l.valid l.shows))
