-- ===== src/Text/Examples.antt =====
-- Runs of nop/arch/i386/tasks/text.c, on a console of two rows with three columns.
use nop.Base.{◌≡◌, refl, arith, Memory, of_list, [], ◌∷◌}
use nop.Text.{
  Text, text_write, text_putchar, text_scroll, breaks, put_here, next_line, put_cell, extended,
}
use nop.Text.Cells.{cell}
use nop.Text.Screen.{Screen, IsValid, Shows, type_text}
use nop.Text.Laws.{Leaves, text_write-Leaves}

abbrev console : Text
console = record { ptr = 100; width = 3; height = 2; x = 1; y = 1; color = 0x0F00 }

abbrev message : Memory
message = of_list (72 ∷ 105 ∷ 33 ∷ 10 ∷ 79 ∷ [])

abbrev blank : Memory
blank a = 0

abbrev screen : Screen
screen = record { glyph = λ r c. 0; row = 1; column = 1 }

console-IsValid : IsValid console
console-IsValid = record { column = omega arith; row = omega arith; wide = omega arith }

console-Shows : Shows console blank screen
console-Shows = record { row = refl; column = refl; cells = λ r c hr hc. refl }

text_write-Leaves_example :
    Leaves console blank
      (text_write console message 0 5 blank)
      (type_text 3 2 0x0F00 message 0 5 screen)
text_write-Leaves_example =
    text_write-Leaves 5 console message 0 blank screen console-IsValid console-Shows

-- The text wraps behind the second character, and the newline scrolls once more.
shown : cell (text_write console message 0 5 blank).1 100 3 ≡ 0x0F4F
unfolding text_write text_putchar text_scroll breaks put_here next_line put_cell extended
shown = refl
