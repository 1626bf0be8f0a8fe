-- ===== src/CString/Examples.antt =====
-- lib/string.c and lib/ctype.c: runs, and the laws at small texts.
use nop.Base.{
  ℕ, ◌+◌, ◌<◌, ◌≡◌, ◌≢◌, ◌↔◌, refl, arith, ◌∷◌, [], none, some, of_list, codes, of_list-IsBytes,
  Memory, IsBytes,
}
use nop.Base.Int.{pos, sub_int8}
use nop.CString.{
  strlen_loop, strlen, memmove, memcmp, strcmp, strncmp, strchr, strchr_loop, strchrnul, isdigit,
  toupper, tolower,
}
use nop.CString.Copy.{copied, memmove-copied}
use nop.CString.Length.{IsString, strlen_lem}
use nop.CString.Compare.{SameBytes, SameText, strcmp_prefix, strncmp-SameText}
use nop.CString.Find.{case_conversions}

abbrev pci : Memory
pci = of_list (codes "$pci1")

abbrev pci10 : Memory
pci10 = of_list (codes "$pci10")

-- "pci" at 0 and "10" at 8.
abbrev two : Memory
two = of_list (112 ∷ 99 ∷ 105 ∷ 0 ∷ 0 ∷ 0 ∷ 0 ∷ 0 ∷ 49 ∷ 48 ∷ [])

runs :
    (strlen pci 0 ≡ 5)
    × (strcmp pci 0 pci10 0 ≡ pos 0)
    × (strncmp pci 0 pci10 0 15 ≡ sub_int8 0 b'0')
    × (strchr pci 0 b'c' ≡ some 2)
    × (strchr pci 0 0 ≡ none)
    × (strchrnul pci 0 b'/' ≡ 5)
    × (toupper b'f' ≡ b'F')
unfolding strlen strlen_loop strcmp strncmp memcmp strchr strchr_loop strchrnul toupper
runs = (refl, refl, refl, refl, refl, refl, refl)

pci-IsBytes : IsBytes pci
pci-IsBytes = of_list-IsBytes (codes "$pci1") (omega arith)

pci10-IsBytes : IsBytes pci10
pci10-IsBytes = of_list-IsBytes (codes "$pci10") (omega arith)

pci-IsString : IsString pci 0 5
pci-IsString = record { nonzero = pci_nonzero; terminated = refl }
  where
    pci_nonzero : (i : ℕ) → i < 5 → pci (0 + i) ≢ 0
    pci_nonzero i h = grind arith

memmove-copied_example : memmove pci 2 1 3 4 ≡ copied pci pci 2 1 3 4
memmove-copied_example = memmove-copied 3 pci 2 1 4

strlen_lem_example : strlen pci 0 ≡ 5
strlen_lem_example = strlen_lem pci 0 5 pci-IsString (omega arith)

strcmp_prefix_example : (strcmp pci 0 pci10 0 ≡ pos 0) ↔ SameBytes pci 0 pci10 0 5
strcmp_prefix_example =
    strcmp_prefix pci pci10 pci-IsBytes pci10-IsBytes 0 0 5 pci-IsString (omega arith)

strncmp-SameText_example : (strncmp pci 0 pci10 0 15 ≡ pos 0) ↔ SameText pci 0 pci10 0 15
strncmp-SameText_example = strncmp-SameText pci pci10 pci-IsBytes pci10-IsBytes 15 0 0

case_conversions_example :
    (toupper (toupper b'f') ≡ toupper b'f')
    × (toupper (tolower b'f') ≡ toupper b'f')
    × (tolower (toupper b'f') ≡ tolower b'f')
    × (isdigit (toupper b'f') ≡ isdigit b'f')
case_conversions_example = case_conversions b'f'

head-IsString : IsString two 0 3
head-IsString = record { nonzero = nonzero; terminated = refl }
  where
    nonzero : (i : ℕ) → i < 3 → two (0 + i) ≢ 0
    nonzero i h = grind arith

tail-IsString : IsString two 8 2
tail-IsString = record { nonzero = nonzero; terminated = refl }
  where
    nonzero : (i : ℕ) → i < 2 → two (8 + i) ≢ 0
    nonzero i h = grind arith
