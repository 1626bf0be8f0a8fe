-- ===== src/Log.antt =====
-- nop/log.c: the kernel's log. `emit` stands for the callback `log_write_ptr`, on the state `W` of the
-- system; the log's buffer is a memory of its own, and `junk` what it holds before a write. An `int` is
-- its 32-bit pattern. A conversion that takes an argument that is not there, or of another kind, is `none`.
pub mod Bytes
pub mod Laws
pub mod Plain
mod Examples
use nop.Base.{
  ℕ, zero, suc, ◌+◌, ◌-◌, ◌*◌, ◌/◌, ◌%◌, ◌^◌, Bool, true, false, ◌&&◌, ◌||◌, not, Option, none,
  some, List, [], ◌∷◌, ltb, leb, ◌==◌, u32, sub32, negative32, if◌then◌else◌, Memory, of_list,
  codes,
}
use nop.CString.{strlen, memcpy_from, address_space}

abbrev pub log_alloc_size : ℕ
log_alloc_size = 4096

pub record Log (W : Type 0) : Type 0 where
  pub is_early : Bool
  pub buffer : Memory
  pub offset : ℕ
  pub size : ℕ
  pub machine : W

pub data Argument : Type 0 where
  an_int : ℕ → Argument
  a_string : ℕ → Argument

unfoldable pub next_int : List Argument → Option (ℕ × List Argument)
next_int [] = none
next_int (an_int n ∷ args) = some (n, args)
next_int (a_string s ∷ args) = none

unfoldable pub next_string : List Argument → Option (ℕ × List Argument)
next_string [] = none
next_string (an_int n ∷ args) = none
next_string (a_string s ∷ args) = some (s, args)

-- `log_size` for a buffer that has to hold `n` bytes.
unfoldable pub grown : ℕ → ℕ
grown n = u32 ((1 + u32 (n + (log_alloc_size - 1)) / log_alloc_size) * log_alloc_size)

abbrev pub digits_upper : Memory
digits_upper = of_list (codes "0123456789ABCDEFGHIJKLMNOPQRSTUVWXYZ")

abbrev pub digits_lower : Memory
digits_lower = of_list (codes "0123456789abcdefghijklmnopqrstuvwxyz")

-- The loop of `putn_opt`, from the last digit on; a word has at most 32 digits.
unfoldable pub digits_of : ℕ → Memory → ℕ → ℕ → List ℕ → List ℕ
digits_of zero digits base value text = text
digits_of (suc fuel) digits base value text =
    let rest = digits_of fuel digits base (value / base) (digits (value % base) ∷ text) in
    if value == 0 then text else rest

unfoldable pub number_text : ℕ → ℕ → Bool → List ℕ
number_text num base upper =
    let digits = if upper then digits_upper else digits_lower in
    let minus = negative32 num && base == 10 in
    let value = if minus then sub32 0 num else num in
    let text = if num == 0 then b'0' ∷ [] else digits_of 32 digits base value [] in
    if minus then b'-' ∷ text else text

-- `while (*format >= '0' && *format <= '9')`: the length so far and the position.
unfoldable pub pad_digits : ℕ → Memory → ℕ → ℕ → ℕ × ℕ
pad_digits zero mem format pad_len = (pad_len, format)
pad_digits (suc fuel) mem format pad_len = elim (leb b'0' (mem format) && leb (mem format) b'9') [
  | true ↦ pad_digits fuel mem (format + 1) (u32 (pad_len * 10 + (mem format - b'0')))
  | false ↦ (pad_len, format)
]

-- How many rounds `while (pad_len >= length)` has.
unfoldable pub pad_count : ℕ → ℕ → ℕ
pad_count pad_len length = if negative32 pad_len then 0 else pad_len + 1 - length

module _ {W : Type 0} (emit : Memory → ℕ → ℕ → W → W) where
  unfoldable pub log_early : Log W → Log W
  log_early l = record l { is_early = true }

  unfoldable pub log_init : Memory → Log W → Log W
  log_init junk l = record l { is_early = false; buffer = junk; offset = 0; size = 0 }

  unfoldable pub log_write : Memory → ℕ → ℕ → Log W → Log W
  log_write mem str n l =
      let shown = record l { machine = emit mem str n l.machine } in
      let end = u32 (l.offset + n) in
      if l.is_early then shown else record shown {
        size = if ltb l.size end then grown end else l.size;
        buffer = memcpy_from mem l.buffer l.offset str n;
        offset = end;
      }

  unfoldable pub putchar : ℕ → Log W → Log W
  putchar chr l = log_write (λ a. chr) 0 1 l

  unfoldable pub pad_out : ℕ → ℕ → Log W → Log W
  pad_out zero chr l = l
  pad_out (suc n) chr l = pad_out n chr (putchar chr l)

  unfoldable pub puts_opt : Memory → ℕ → Bool → ℕ → ℕ → Log W → Log W
  puts_opt mem str pad_aln pad_len pad_chr l =
      let length = strlen mem str + 1 in
      let n = pad_count pad_len length in
      if pad_aln
      then log_write mem str (length - 1) (pad_out n pad_chr l)
      else pad_out n pad_chr (log_write mem str (length - 1) l)

  unfoldable pub putn_opt : ℕ → ℕ → Bool → Bool → ℕ → ℕ → Log W → Log W
  putn_opt num base upper pad_aln pad_len pad_chr l =
      puts_opt (of_list (number_text num base upper)) 0 pad_aln pad_len pad_chr l

  -- A conversion that prints a number.
  unfoldable pub number :
      ℕ → Bool → Bool → ℕ → ℕ → List Argument → Log W → Option (List Argument × Log W)
  number base upper pad_aln pad_len pad_chr args l = elim (next_int args) [
    | none ↦ none
    | some (num, args') ↦ some (args', putn_opt num base upper pad_aln pad_len pad_chr l)
  ]

  -- The switch on the character `chr` of a conversion.
  unfoldable pub convert :
      Memory → ℕ → Bool → ℕ → ℕ → List Argument → Log W → Option (List Argument × Log W)
  convert mem chr pad_aln pad_len pad_chr args l =
      if chr == b'%'
      then some (args, putchar b'%' l)
      else if chr == b'c'
      then (elim (next_int args) [
        | none ↦ none
        | some (c, args') ↦ some (args', putchar (c % 2 ^ 8) l)
      ])
      else if chr == b'i' || (chr == b'd' || chr == b'u')
      then number 10 false pad_aln pad_len pad_chr args l
      else if chr == b'p'
      then number 16 false pad_aln 8 b'0' args l
      else if chr == b'x'
      then number 16 false pad_aln pad_len pad_chr args l
      else if chr == b'P'
      then number 16 true pad_aln 8 b'0' args l
      else if chr == b'X'
      then number 16 true pad_aln pad_len pad_chr args l
      else if chr == b'o'
      then number 8 false pad_aln pad_len pad_chr args l
      else if chr == b'b'
      then number 2 false pad_aln pad_len pad_chr args l
      else if chr == b's'
      then (elim (next_string args) [
        | none ↦ none
        | some (s, args') ↦ some (args', puts_opt mem s pad_aln pad_len pad_chr l)
      ])
      else some (args, l)

  -- `*`: the length is an argument.
  unfoldable pub star : Memory → ℕ → List Argument → Option (ℕ × ℕ × List Argument)
  star mem format args = elim (mem format == b'*') [
    | false ↦ some (0, format, args)
    | true ↦ elim (next_int args) [ none ↦ none | some (n, args') ↦ some (n, format + 1, args') ]
  ]

  -- A conversion from behind its `%` on: the position of its last character, what is left of the
  -- arguments, and the log.
  unfoldable pub conversion :
      Memory → ℕ → List Argument → Log W → Option (ℕ × List Argument × Log W)
  conversion mem format args l =
      let pad_aln = not (mem format == b'-') in
      let after_minus = if pad_aln then format else format + 1 in
      elim (star mem after_minus args) [
        | none ↦ none
        | some (given, after_star, args') ↦
            let has_zero = mem after_star == b'0' || mem after_star == b'.' in
            let pad_chr = if has_zero then b'0' else b' ' in
            let (pad_len, last) =
              pad_digits address_space mem (if has_zero then after_star + 1 else after_star)
                given in
            elim (convert mem (mem last) pad_aln pad_len pad_chr args' l) [
              | none ↦ none
              | some (args'', l') ↦ some (last, args'', l')
            ]
      ]

  -- `log` on fuel, a round for each conversion or plain character: `none` is an argument that does not
  -- fit, or no fuel.
  unfoldable pub log : ℕ → Memory → ℕ → List Argument → Log W → Option (Log W)
  log zero mem format args l = none
  log (suc fuel) mem format args l = elim (mem format == 0) [
    | true ↦ some l
    | false ↦ elim (mem format == b'%') [
      | false ↦ log fuel mem (format + 1) args (putchar (mem format) l)
      | true ↦ elim (conversion mem (format + 1) args l) [
        | none ↦ none
        | some (last, args', l') ↦ log fuel mem (last + 1) args' l'
      ]
    ]
  ]
