-- ===== src/Log/Laws.antt =====
-- nop/log.c: what is logged is shown, and is kept in the buffer once the log is set up.
use mathlib.Core.List.{append_assoc, append-nil}
use mathlib.Core.Bool.{false≢true}
use nop.Base.{
  get_or, ℕ, zero, suc, ◌+◌, ◌-◌, ◌^◌, ◌<◌, ◌≤◌, ◌≡◌, refl, arith, Bool, true, false, List, [], ◌∷◌,
  ◌++◌, length, length-append, ap, sym, ◌∙◌, Bool-cases, inl, inr, Memory, u32, ltb, negative32,
  replicate, if◌then◌else◌,
}
use nop.CString.{strlen, memcpy_from}
use nop.CString.Length.{IsString, strlen_lem}
use nop.CString.Copy.{copied, memcpy_from-copied}
use nop.Log.Bytes.{bytes_at, length-bytes_at, stored-append}
use nop.Log.{Log, log_write, putchar, pad_out, puts_opt, pad_count, grown}

grown_room : (size m : ℕ) → m < 2 ^ 31 → m ≤ (if ltb size m then grown m else size)
unfolding grown
grown_room size m small = ground arith

pad_room :
    (pad_len len n : ℕ) (text : List ℕ)
    → n ≡ len
    → length text ≡ len
    → (n + 1 - 1 ≡ len)
      × (pad_count pad_len (n + 1) ≡ (if negative32 pad_len then 0 else pad_len - length text))
unfolding pad_count
pad_room pad_len len n text e e' = (omega arith, ground arith)

-- A text made up to `pad_len` characters, a signed word, in front if it is aligned to the right.
abbrev pub padded : Bool → ℕ → ℕ → List ℕ → List ℕ
padded pad_aln pad_len chr text =
    let pad = replicate (if negative32 pad_len then 0 else pad_len - length text) chr in
    if pad_aln then pad ++ text else text ++ pad

-- What the callback shows on `screen`.
module _ {W : Type 0} (emit : Memory → ℕ → ℕ → W → W) (screen : W → List ℕ)
    (shows : (mem : Memory) (str n : ℕ) (w : W)
      → screen (emit mem str n w) ≡ screen w ++ bytes_at mem str n) where
  -- The buffer holds `text`, and has room for it.
  pub record IsKept (l : Log W) (text : List ℕ) : Type 0 where
    pub filled : l.offset ≡ length text
    pub inside : l.offset ≤ l.size
    pub stored : (i : ℕ) → i < length text → l.buffer i ≡ get_or text i 0

  -- The call from `l` to `l'` logs `added`: it is shown, and kept if the log has been set up.
  pub record Logs (l : Log W) (added : List ℕ) (l' : Log W) : Type 0 where
    pub same_phase : l'.is_early ≡ l.is_early
    pub shown : screen l'.machine ≡ screen l.machine ++ added
    pub kept :
        (text : List ℕ)
        → l.is_early ≡ false
        → length (text ++ added) < 2 ^ 31
        → IsKept l text
        → IsKept l' (text ++ added)

  pub Logs-nothing : (l : Log W) → Logs l [] l
  Logs-nothing l = record {
    same_phase = refl;
    shown = sym (append-nil (screen l.machine));
    kept = λ text set_up short k. rw (append-nil text) k;
  }

  pub Logs-then :
      {l l1 l2 : Log W} (xs ys : List ℕ) → Logs l xs l1 → Logs l1 ys l2 → Logs l (xs ++ ys) l2
  Logs-then {l} {l1} {l2} xs ys a b = record {
    same_phase = b.same_phase ∙ a.same_phase;
    shown = b.shown ∙ ap (λ (t : List ℕ). t ++ ys) a.shown ∙ append_assoc (screen l.machine) xs ys;
    kept = λ text set_up short k. rw (sym (append_assoc text xs ys)) (
        b.kept (text ++ xs) (a.same_phase ∙ set_up) (rw (append_assoc text xs ys) short) (
          a.kept text set_up
            (omega
              (arith, length-append text (xs ++ ys), length-append text xs, length-append xs ys))
            k));
  }

  module _ (mem : Memory) (str n : ℕ) (l : Log W) where
    written_early :
        l.is_early ≡ true
        → log_write emit mem str n l ≡ record l { machine = emit mem str n l.machine }
    unfolding log_write
    written_early early = rw (early, log_write) refl

    abbrev end : ℕ
    end = u32 (l.offset + n)

    abbrev late_log : Log W
    late_log = record l {
      buffer = memcpy_from mem l.buffer l.offset str n;
      offset = end;
      size = if ltb l.size end then grown end else l.size;
      machine = emit mem str n l.machine;
    }

    written_late : l.is_early ≡ false → log_write emit mem str n l ≡ late_log
    unfolding log_write
    written_late late = rw (late, log_write) refl

  written-IsKept :
      (mem : Memory) (str n : ℕ) (l : Log W) (text : List ℕ)
      → length (text ++ bytes_at mem str n) < 2 ^ 31
      → IsKept l text
      → IsKept (late_log mem str n l) (text ++ bytes_at mem str n)
  written-IsKept mem str n l text short k =
      let total : length (text ++ bytes_at mem str n) ≡ length text + n =
        omega (arith, length-append text (bytes_at mem str n), length-bytes_at n mem str) in
      let at_end : end mem str n l ≡ length text + n = omega (arith, k.filled) in
      record {
        filled = at_end ∙ sym total;
        inside = grown_room l.size (end mem str n l) (omega arith);
        stored = λ i lt.
            memcpy_from-copied n mem l.buffer l.offset str i
            ∙ ap (λ (o : ℕ). copied mem l.buffer o str n i) k.filled
            ∙ stored-append n mem l.buffer str text k.stored i (omega arith);
      }

  log_write-Logs :
      (mem : Memory) (str n : ℕ) (l : Log W)
      → n < 2 ^ 31
      → Logs l (bytes_at mem str n) (log_write emit mem str n l)
  log_write-Logs mem str n l fits = elim (Bool-cases l.is_early) [
    | inl early ↦ rw (written_early mem str n l early) (record {
      same_phase = refl;
      shown = shows mem str n l.machine;
      kept = λ text set_up. absurd (false≢true (sym set_up ∙ early));
    })
    | inr late ↦ rw (written_late mem str n l late) (record {
      same_phase = refl;
      shown = shows mem str n l.machine;
      kept = λ text set_up short k. written-IsKept mem str n l text short k;
    })
  ]

  pub putchar-Logs : (chr : ℕ) (l : Log W) → Logs l (chr ∷ []) (putchar emit chr l)
  unfolding putchar
  putchar-Logs chr l = log_write-Logs (λ a. chr) 0 1 l (omega arith)

  pad_out-Logs : (n chr : ℕ) (l : Log W) → Logs l (replicate n chr) (pad_out emit n chr l)
  unfolding pad_out
  pad_out-Logs zero chr l = Logs-nothing l
  pad_out-Logs (suc n) chr l =
      Logs-then (chr ∷ []) (replicate n chr) (putchar-Logs chr l)
        (pad_out-Logs n chr (putchar emit chr l))

  -- puts_opt logs the string at an address, of less than 2 ^ 31 bytes, padded as it is asked for: this is
  -- what the callback shows, and once the log has been set up, what is added to its buffer, which is
  -- large enough for it as long as the whole log has less than 2 ^ 31 bytes.
  pub puts_opt-Logs :
      (mem : Memory) (str len : ℕ) (pad_aln : Bool) (pad_len chr : ℕ) (l : Log W)
      → IsString mem str len
      → len < 2 ^ 31
      → Logs l
          (padded pad_aln pad_len chr (bytes_at mem str len))
          (puts_opt emit mem str pad_aln pad_len chr l)
  unfolding puts_opt
  puts_opt-Logs mem str len true pad_len chr l s fits =
      let text = bytes_at mem str len in
      let count =
        pad_room pad_len len (strlen mem str) text (strlen_lem mem str len s (omega arith))
          (length-bytes_at len mem str) in
      let n = if negative32 pad_len then 0 else pad_len - length text in
      rw (count.0, count.1, puts_opt)
        (Logs-then (replicate n chr) text (pad_out-Logs n chr l)
          (log_write-Logs mem str len (pad_out emit n chr l) fits))
  puts_opt-Logs mem str len false pad_len chr l s fits =
      let text = bytes_at mem str len in
      let count =
        pad_room pad_len len (strlen mem str) text (strlen_lem mem str len s (omega arith))
          (length-bytes_at len mem str) in
      let n = if negative32 pad_len then 0 else pad_len - length text in
      rw (count.0, count.1, puts_opt)
        (Logs-then text (replicate n chr) (log_write-Logs mem str len l fits)
          (pad_out-Logs n chr (log_write emit mem str len l)))
