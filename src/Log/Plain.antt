-- ===== src/Log/Plain.antt =====
-- nop/log.c: a format without conversions.
use nop.Base.{
  ℕ, zero, suc, ◌+◌, ◌<◌, ◌≡◌, ◌≢◌, refl, arith, true, false, List, [], ◌∷◌, ◌++◌, ap, ◌∙◌, Memory,
  some, ◌==◌,
}
use nop.CString.Length.{IsString}
use nop.Log.{Log, Argument, putchar, log}
use nop.Log.Bytes.{bytes_at}
use nop.Log.Laws.{Logs, Logs-then, Logs-nothing, putchar-Logs}

module _ {W : Type 0} (emit : Memory → ℕ → ℕ → W → W) (screen : W → List ℕ)
    (shows : (mem : Memory) (str n : ℕ) (w : W)
      → screen (emit mem str n w) ≡ screen w ++ bytes_at mem str n) where
  log_stop :
      (fuel : ℕ) (mem : Memory) (format : ℕ) (args : List Argument) (l : Log W)
      → (mem format == 0) ≡ true
      → log emit (suc fuel) mem format args l ≡ some l
  unfolding log
  log_stop fuel mem format args l e = rw (e, log) refl

  log_plain :
      (fuel : ℕ) (mem : Memory) (format : ℕ) (args : List Argument) (l : Log W)
      → (mem format == 0) ≡ false
      → (mem format == b'%') ≡ false
      → log emit (suc fuel) mem format args l
        ≡ log emit fuel mem (format + 1) args (putchar emit (mem format) l)
  unfolding log
  log_plain fuel mem format args l e e' = rw (e, e', log) refl

  -- A format that is a string without a `%` is logged as it is, with a round for each character and one
  -- for the end; the arguments are not used.
  pub log-Logs :
      (n fuel : ℕ) (mem : Memory) (format : ℕ) (args : List Argument) (l : Log W)
      → n < fuel
      → IsString mem format n
      → ((i : ℕ) → i < n → mem (format + i) ≢ b'%')
      → (l' : Log W) × (log emit fuel mem format args l ≡ some l')
        × Logs emit screen shows l (bytes_at mem format n) l'
  log-Logs zero zero mem format args l lt s plain = elim lt [ ]
  log-Logs (suc n) zero mem format args l lt s plain = elim lt [ ]
  log-Logs zero (suc fuel) mem format args l lt s plain =
      let last : mem format ≡ 0 = ap mem (omega arith) ∙ s.terminated in
      let at_end : (mem format == 0) ≡ true = ground (arith, last) in
      (l, log_stop fuel mem format args l at_end, Logs-nothing emit screen shows l)
  log-Logs (suc n) (suc fuel) mem format args l lt s plain =
      let here : mem (format + 0) ≡ mem format = ap mem (omega arith) in
      let chr = mem format in
      let rest : IsString mem (format + 1) n = record {
        nonzero = λ i lt'. λ e. s.nonzero (suc i) (omega arith) (ap mem (omega arith) ∙ e);
        terminated = ap mem (omega arith) ∙ s.terminated;
      } in
      let (l', e, logs) =
        log-Logs n fuel mem (format + 1) args (putchar emit chr l) (omega arith) rest
          (λ i lt'. λ e. plain (suc i) (omega arith) (ap mem (omega arith) ∙ e)) in
      let not_end : (chr == 0) ≡ false = ground (arith, s.nonzero 0 (omega arith), here) in
      let not_percent : (chr == b'%') ≡ false = ground (arith, plain 0 (omega arith), here) in
      (
        l',
        log_plain fuel mem format args l not_end not_percent ∙ e,
        Logs-then emit screen shows (chr ∷ []) (bytes_at mem (format + 1) n)
            (putchar-Logs emit screen shows chr l) logs,
      )
