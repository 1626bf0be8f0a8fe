-- ===== src/Hba/Command.antt =====
-- nop/tasks/ahci.c: what ahci_send_h2d puts into the command header and the command table.
use nop.Base.{
  ℕ, zero, suc, ◌+◌, ◌-◌, ◌*◌, ◌/◌, ◌%◌, ◌^◌, ◌<◌, ◌≤◌, ◌≡◌, ap, ◌∙◌, arith, List, [], ◌∷◌, ◌++◌,
  replicate, u32, sub32,
}
use nop.Hba.{Hba, Header, Prdt, H2d, CommandTable, entry_count, entries, prepared, command_table}
use nop.Hba.Send.{Holds}

-- An entry for `size` bytes from `ptr` on.
abbrev pub entry : ℕ → ℕ → Prdt
entry ptr size = record { dba = ptr; dbau = 0; dbc = size }

-- The command header of the slot and its table, for a transfer of `n` bytes.
pub record IsCommand {W : Type 0} (hba : Hba W) (base slot : ℕ) (fis : H2d) (ptr n : ℕ)
    (old : Header) (w : W) : Type 0 where
  pub header :
      hba.header base slot w
      ≡ record { cfl = 5; w = 0; prdtl = (n - 1) / 8192 + 1; ctba = old.ctba; ctbau = old.ctbau }
  pub cfis : (hba.table (u32 (old.ctba + 2 ^ 32 * old.ctbau)) w).cfis ≡ fis
  pub prdt_entry :
      (hba.table (u32 (old.ctba + 2 ^ 32 * old.ctbau)) w).prdt_entry
      ≡ replicate ((n - 1) / 8192) (entry ptr 8191)
        ++ (entry ptr (n - 8192 * ((n - 1) / 8192)) ∷ [])

entries_lem :
    (k ptr n : ℕ)
    → ptr < 2 ^ 32
    → n < 2 ^ 32
    → 8192 * k < n
    → n ≤ 8192 * k + 8192
    → entries k ptr n ≡ replicate k (entry ptr 8191) ++ (entry ptr (n - 8192 * k) ∷ [])
unfolding entries
entries_lem zero ptr n low small from to =
    ap (λ (p : ℕ). entry p (n % 2 ^ 22) ∷ []) (omega arith)
    ∙ ap (λ (s : ℕ). entry ptr s ∷ []) (omega arith)
entries_lem (suc k) ptr n low small from to =
    let step : sub32 n 8192 ≡ n - 8192 = omega arith in
    let left : n - 8192 - 8192 * k ≡ n - 8192 * suc k = omega arith in
    ap (λ (p : ℕ). entry p 8191 ∷ entries k ptr (sub32 n 8192)) (omega arith)
    ∙ ap (λ (m : ℕ). entry ptr 8191 ∷ entries k ptr m) step
    ∙ ap (λ (es : List Prdt). entry ptr 8191 ∷ es)
        (entries_lem k ptr (n - 8192) low (omega arith) (omega arith) (omega arith))
    ∙ ap (λ (s : ℕ). entry ptr 8191 ∷ (replicate k (entry ptr 8191) ++ (entry ptr s ∷ []))) left

entry_count_lem : (n : ℕ) → 0 < n → n ≤ 8192 * 65535 → entry_count n ≡ (n - 1) / 8192 + 1
unfolding entry_count
entry_count_lem n pos small = omega arith

module _ {W : Type 0} (hba : Hba W) (base slot : ℕ) (fis : H2d) (ptr n : ℕ) (old : Header)
    (w : W) where
  pub Holds-IsCommand :
      ptr < 2 ^ 32
      → 0 < n
      → n ≤ 8192 * 65535
      → Holds hba base slot (prepared old n) (command_table fis ptr n) w
      → IsCommand hba base slot fis ptr n old w
  unfolding prepared command_table
  Holds-IsCommand low pos small held =
      let count = entry_count_lem n pos small in
      let left : sub32 (entry_count n) 1 ≡ (n - 1) / 8192 =
        ap (λ (c : ℕ). sub32 c 1) count ∙ omega arith in
      record {
        header = held.header ∙ ap (λ (c : ℕ). record old { cfl = 5; w = 0; prdtl = c }) count;
        cfis = ap (λ (t : CommandTable). t.cfis) held.table;
        prdt_entry =
            ap (λ (t : CommandTable). t.prdt_entry) held.table
            ∙ ap (λ (k : ℕ). entries k ptr n) left
            ∙ entries_lem ((n - 1) / 8192) ptr n low (omega arith) (omega arith) (omega arith);
      }
