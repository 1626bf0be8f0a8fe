-- ===== src/Hba/Send.antt =====
-- nop/tasks/ahci.c: ahci_send_h2d hands a command to a controller that answers.
use nop.Base.{
  ℕ, zero, suc, ◌+◌, ◌-◌, ◌*◌, ◌^◌, ◌<◌, ◌≤◌, ◌≡◌, ◌≢◌, refl, ap, ◌∙◌, arith, Bool, true, inl, inr,
  Bool-cases, bit_and, bit_or, some, ◌==◌, u32, ◌<<<◌,
}
use mathlib.Core.Path.{subst}
use nop.Hba.{
  Hba, Register, clb, clbu, is, tfd, sact, ci, Header, CommandTable, H2d, prepared, command_table,
  ahci_find_slot, spin_idle, has_failed, wait_done, prepare, issue, ahci_send_h2d,
}

-- What the driver relies on. The command list is at `base`; the registers and the memory that the controller
-- shares do not disturb one another; the device is busy for `busy w` reads of its status at most, and a
-- command is on its way for `pending w` reads of CI at most; no command fails.
pub record IsController {W : Type 0} (hba : Hba W) (base : ℕ) (busy pending : W → ℕ) (most : ℕ)
    : Type 0 where
  pub low : (w : W) → (hba.get clb w).1 ≡ base
  pub high : (w : W) → (hba.get clbu w).1 ≡ 0
  pub header_get :
      (r : Register) (s : ℕ) (w : W) → hba.header base s (hba.get r w).0 ≡ hba.header base s w
  pub header_put :
      (r : Register) (v s : ℕ) (w : W) → hba.header base s (hba.put r v w) ≡ hba.header base s w
  pub header_set : (s : ℕ) (h : Header) (w : W) → hba.header base s (hba.set_header base s h w) ≡ h
  pub header_table :
      (a : ℕ) (t : CommandTable) (s : ℕ) (w : W)
      → hba.header base s (hba.set_table a t w) ≡ hba.header base s w
  pub table_get : (r : Register) (a : ℕ) (w : W) → hba.table a (hba.get r w).0 ≡ hba.table a w
  pub table_put : (r : Register) (v a : ℕ) (w : W) → hba.table a (hba.put r v w) ≡ hba.table a w
  pub table_set : (a : ℕ) (t : CommandTable) (w : W) → hba.table a (hba.set_table a t w) ≡ t
  pub idle : (w : W) → busy w ≡ 0 → bit_and (hba.get tfd w).1 0x88 ≡ 0
  pub idles : (w : W) → busy (hba.get tfd w).0 ≡ busy w - 1
  pub idle_soon : (w : W) → busy w < 2 ^ 22
  pub done : (s : ℕ) (w : W) → pending w ≡ 0 → bit_and (hba.get ci w).1 (1 <<< s) ≡ 0
  pub works : (w : W) → pending (hba.get is (hba.get ci w).0).0 ≡ pending w - 1
  pub done_soon : (w : W) → pending w ≤ most
  pub no_error : (w : W) → bit_and (hba.get is w).1 0x40000000 ≡ 0

-- The command in the slot, and its table.
pub record Holds {W : Type 0} (hba : Hba W) (base slot : ℕ) (h : Header) (t : CommandTable) (w : W)
    : Type 0 where
  pub header : hba.header base slot w ≡ h
  pub table : hba.table (u32 (h.ctba + 2 ^ 32 * h.ctbau)) w ≡ t

module _ {W : Type 0} (hba : Hba W) (base : ℕ) (busy pending : W → ℕ) (most : ℕ)
    (c : IsController hba base busy pending most) (slot : ℕ) (h : Header) (t : CommandTable) where
  abbrev Held : W → Type 0
  Held w = Holds hba base slot h t w

  get-Holds : (r : Register) (w : W) → Held w → Held (hba.get r w).0
  get-Holds r w held = record {
    header = c.header_get r slot w ∙ held.header;
    table = c.table_get r (u32 (h.ctba + 2 ^ 32 * h.ctbau)) w ∙ held.table;
  }

  put-Holds : (r : Register) (v : ℕ) (w : W) → Held w → Held (hba.put r v w)
  put-Holds r v w held = record {
    header = c.header_put r v slot w ∙ held.header;
    table = c.table_put r v (u32 (h.ctba + 2 ^ 32 * h.ctbau)) w ∙ held.table;
  }

  spin_idle-Holds :
      (spin : ℕ) (w : W)
      → busy w < spin
      → Held w
      → (w' : W) × (spin_idle hba spin w ≡ (w', true)) × Held w'
  unfolding spin_idle
  spin_idle-Holds zero w lt held = absurd (omega arith)
  spin_idle-Holds (suc spin) w lt held =
      let next = (hba.get tfd w).0 in
      let held' = get-Holds tfd w held in
      elim (Bool-cases (bit_and (hba.get tfd w).1 0x88 == 0)) [
        | inl free ↦ (next, rw (free, spin_idle) refl, held')
        | inr taken ↦
            let some_left : busy w ≢ 0 = λ z. absurd (ground (arith, c.idle w z)) in
            let (w', e, held'') =
              spin_idle-Holds spin next (omega (arith, some_left, c.idles w)) held' in
            (w', rw (taken, spin_idle) e, held'')
      ]

  wait_done-Holds :
      (fuel : ℕ) (w : W)
      → pending w < fuel
      → Held w
      → (w' : W) × (wait_done hba fuel slot w ≡ some (w', true)) × Held w'
  unfolding wait_done has_failed
  wait_done-Holds zero w lt held = absurd (omega arith)
  wait_done-Holds (suc fuel) w lt held =
      let w1 = (hba.get ci w).0 in
      let w2 = (hba.get is w1).0 in
      let held' = get-Holds is w1 (get-Holds ci w held) in
      let fine : (bit_and (hba.get is w1).1 0x40000000 == 0) ≡ true =
        ground (arith, c.no_error w1) in
      elim (Bool-cases (bit_and (hba.get ci w).1 (1 <<< slot) == 0)) [
        | inl ended ↦ (w2, rw (ended, fine, wait_done) refl, held')
        | inr waiting ↦
            let some_left : pending w ≢ 0 = λ z. absurd (ground (arith, c.done slot w z)) in
            let (w', e, held'') =
              wait_done-Holds fuel w2 (omega (arith, some_left, c.works w)) held' in
            (w', rw (waiting, fine, wait_done) e, held'')
      ]

module _ {W : Type 0} (hba : Hba W) (base : ℕ) (busy pending : W → ℕ) (most : ℕ)
    (c : IsController hba base busy pending most) (small : base < 2 ^ 32) where
  -- The command as it stands before the wait for the device, in the list at an address.
  abbrev set_up_at : ℕ → ℕ → H2d → ℕ → ℕ → W → W
  set_up_at list slot fis ptr n w =
      let w2 = (hba.get clbu (hba.get clb w).0).0 in
      let h = prepared (hba.header list slot w2) n in
      hba.set_table (u32 (h.ctba + 2 ^ 32 * h.ctbau)) (command_table fis ptr n)
        (hba.set_header list slot h w2)

  abbrev set_up : ℕ → H2d → ℕ → ℕ → W → W
  set_up slot fis ptr n w = set_up_at base slot fis ptr n w

  set_up-Holds :
      (slot : ℕ) (fis : H2d) (ptr n : ℕ) (w : W)
      → Holds hba base slot
          (prepared (hba.header base slot w) n)
          (command_table fis ptr n)
          (set_up slot fis ptr n w)
  set_up-Holds slot fis ptr n w =
      let w1 = (hba.get clb w).0 in
      let w2 = (hba.get clbu w1).0 in
      let kept : hba.header base slot w2 ≡ hba.header base slot w =
        c.header_get clbu slot w1 ∙ c.header_get clb slot w in
      subst
        (λ (x : Header).
          Holds hba base slot (prepared x n) (command_table fis ptr n) (set_up slot fis ptr n w))
        kept
        (record {
          header =
              c.header_table _ _ slot _
              ∙ c.header_set slot (prepared (hba.header base slot w2) n) w2;
          table = c.table_set _ _ _;
        })

  prepare_lem :
      (slot : ℕ) (fis : H2d) (ptr n : ℕ) (w : W)
      → prepare hba slot fis ptr n w ≡ set_up slot fis ptr n w
  unfolding prepare
  prepare_lem slot fis ptr n w =
      let w1 = (hba.get clb w).0 in
      let same : u32 ((hba.get clb w).1 + 2 ^ 32 * (hba.get clbu w1).1) ≡ base =
        omega (arith, c.low w, c.high w1, small) in
      ap (λ (list : ℕ). set_up_at list slot fis ptr n w) same

  issue_step :
      (fuel slot : ℕ) (w w1 : W)
      → spin_idle hba (2 ^ 22) w ≡ (w1, true)
      → issue hba fuel slot w
        ≡ wait_done hba fuel slot
            (hba.put ci (bit_or (hba.get ci w1).1 (1 <<< slot)) (hba.get ci w1).0)
  unfolding issue
  issue_step fuel slot w w1 e =
      let idle = ap (λ (r : W × Bool). r.1) e in
      rw (idle, issue)
        (ap
          (λ (x : W).
            wait_done hba fuel slot
              (hba.put ci (bit_or (hba.get ci x).1 (1 <<< slot)) (hba.get ci x).0))
          (ap (λ (r : W × Bool). r.0) e))

  issue-Holds :
      (fuel slot : ℕ) (h : Header) (t : CommandTable) (w : W)
      → most < fuel
      → Holds hba base slot h t w
      → (w' : W) × (issue hba fuel slot w ≡ some (w', true)) × Holds hba base slot h t w'
  issue-Holds fuel slot h t w lt held =
      let (w5, e5, held5) =
        spin_idle-Holds hba base busy pending most c slot h t (2 ^ 22) w (c.idle_soon w) held in
      let v = bit_or (hba.get ci w5).1 (1 <<< slot) in
      let w6 = (hba.get ci w5).0 in
      let held6 =
        put-Holds hba base busy pending most c slot h t ci v w6
          (get-Holds hba base busy pending most c slot h t ci w5 held5) in
      let (w', e, held') =
        wait_done-Holds hba base busy pending most c slot h t fuel (hba.put ci v w6)
          (omega (arith, c.done_soon (hba.put ci v w6))) held6 in
      (w', issue_step fuel slot w w5 e5 ∙ e, held')

  pub send-Holds :
      (fuel slot : ℕ) (fis : H2d) (ptr n : ℕ) (w : W)
      → most < fuel
      → (ahci_find_slot hba (hba.put is 0xFFFFFFFF w)).1 ≡ some slot
      → (w' : W) × (ahci_send_h2d hba fuel fis ptr n w ≡ some (w', true))
        × Holds hba base slot (prepared (hba.header base slot w) n) (command_table fis ptr n) w'
  unfolding ahci_send_h2d
  send-Holds fuel slot fis ptr n w lt found =
      let w0 = hba.put is 0xFFFFFFFF w in
      let w1 = (ahci_find_slot hba w0).0 in
      let kept : hba.header base slot w1 ≡ hba.header base slot w =
        unfold ahci_find_slot in
        (c.header_get ci slot (hba.get sact w0).0
          ∙ c.header_get sact slot w0
          ∙ c.header_put is 0xFFFFFFFF slot w) in
      let (w', e, held) =
        issue-Holds fuel slot (prepared (hba.header base slot w1) n) (command_table fis ptr n)
          (prepare hba slot fis ptr n w1) lt
          (rw (prepare_lem slot fis ptr n w1) (set_up-Holds slot fis ptr n w1)) in
      (
        w',
        rw (found, ahci_send_h2d) e,
        subst (λ (x : Header). Holds hba base slot (prepared x n) (command_table fis ptr n) w') kept
            held,
      )
