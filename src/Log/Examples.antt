-- ===== src/Log/Examples.antt =====
-- Runs of nop/log.c, with a screen that is the list of the bytes shown.
use nop.Base.{
  ℕ, ◌+◌, ◌<◌, ◌≡◌, ◌≢◌, refl, arith, true, false, Option, some, none, List, [], ◌∷◌, ◌++◌, Memory,
  of_list, codes,
}
use nop.CString.{strlen, strlen_loop}
use nop.CString.Length.{IsString}
use nop.Log.{
  Log, an_int, log, puts_opt, conversion, convert, star, number, next_int, putn_opt, number_text,
  digits_of, pad_digits, pad_count, pad_out, putchar, log_write,
}
use nop.Log.Bytes.{bytes_at}
use nop.Log.Laws.{Logs, padded, puts_opt-Logs}

abbrev shown : Memory → ℕ → ℕ → List ℕ → List ℕ
shown mem str n w = w ++ bytes_at mem str n

abbrev shown_of : List ℕ → List ℕ
shown_of w = w

abbrev blank : Memory
blank a = 0

abbrev started : Log (List ℕ)
started = record { is_early = false; buffer = blank; offset = 0; size = 0; machine = [] }

abbrev early : Log (List ℕ)
early = record started { is_early = true }

abbrev screen_of : Option (Log (List ℕ)) → List ℕ
screen_of none = []
screen_of (some l) = l.machine

number_padded :
    screen_of (log shown 20 (of_list (codes "id %04d")) 0 (an_int 42 ∷ []) early) ≡ codes "id 0042"
unfolding log conversion star convert pad_digits number next_int putn_opt puts_opt log_write pad_out
    pad_count strlen strlen_loop number_text digits_of putchar
number_padded = refl

pci-IsString : IsString (of_list (codes "$pci")) 0 4
pci-IsString = record { nonzero = chars; terminated = refl }
  where
    chars : (i : ℕ) → i < 4 → of_list (codes "$pci") (0 + i) ≢ 0
    chars i h = grind arith

puts_opt-Logs_example :
    Logs shown shown_of
      (λ mem str n w. refl)
      started
      (padded true 6 32 (bytes_at (of_list (codes "$pci")) 0 4))
      (puts_opt shown (of_list (codes "$pci")) 0 true 6 32 started)
puts_opt-Logs_example =
    puts_opt-Logs shown shown_of (λ mem str n w. refl) (of_list (codes "$pci")) 0 4 true 6 32
      started pci-IsString (omega arith)

no_percent : (i : ℕ) → i < 4 → of_list (codes "$pci") (0 + i) ≢ 37
no_percent i h = grind arith
