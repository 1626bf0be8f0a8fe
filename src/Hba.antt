-- ===== src/Hba.antt =====
-- nop/tasks/ahci.c: the command layer. A port's registers are volatile: a read may change the state `W` of
-- the machine. The lists of command headers and the command tables, which the controller shares, are reached
-- by their addresses through `Hba`. A wait that has no bound of its own has fuel, and `none` is one that does
-- not end. `log` calls are left out.
pub mod Slots
pub mod Send
pub mod Command
pub mod Done
mod Port
mod Examples
use nop.Base.{
  ℕ, zero, suc, ◌+◌, ◌-◌, ◌*◌, ◌%◌, ◌^◌, bit_and, bit_or, Bool, true, false, not, ◌&&◌, ◌||◌,
  Option, none, some, List, [], ◌∷◌, ◌==◌, if◌then◌else◌, u16, u32, sub32, ◌<<<◌, ◌>>>◌,
}

-- The registers of hba_port_t that the code uses.
pub data Register : Type 0 where
  clb : Register
  clbu : Register
  fb : Register
  fbu : Register
  is : Register
  cmd : Register
  tfd : Register
  sig : Register
  ssts : Register
  sact : Register
  ci : Register

-- hba_cmd_header_t, the fields that the code sets.
pub record Header : Type 0 where
  pub cfl : ℕ
  pub w : ℕ
  pub prdtl : ℕ
  pub ctba : ℕ
  pub ctbau : ℕ

-- hba_prdt_t
pub record Prdt : Type 0 where
  pub dba : ℕ
  pub dbau : ℕ
  pub dbc : ℕ

-- fis_h2d_t; the fields that stay 0 are left out.
pub record H2d : Type 0 where
  pub fis_type : ℕ
  pub c : ℕ
  pub command : ℕ
  pub device : ℕ
  pub lba_low : ℕ
  pub lba_high : ℕ
  pub count : ℕ

-- hba_cmd_table_t, after the memset and the writes that follow it.
pub record CommandTable : Type 0 where
  pub cfis : H2d
  pub prdt_entry : List Prdt

pub record Hba (W : Type 0) : Type 0 where
  pub get : Register → W → W × ℕ
  pub put : Register → ℕ → W → W
  pub header : ℕ → ℕ → W → Header
  pub set_header : ℕ → ℕ → Header → W → W
  pub table : ℕ → W → CommandTable
  pub set_table : ℕ → CommandTable → W → W

-- The loop of `ahci_find_slot`, from `i` on.
unfoldable pub find_slot_from : ℕ → ℕ → ℕ → Option ℕ
find_slot_from zero i slots = none
find_slot_from (suc left) i slots = elim (bit_and slots 1 == 0) [
  | true ↦ some i
  | false ↦ find_slot_from left (i + 1) (slots >>> 1)
]

-- The entries of the table: the pointer does not move, since the code advances `ptr` but stores `ptr_64`.
unfoldable pub entries : ℕ → ℕ → ℕ → List Prdt
entries zero ptr n = record { dba = u32 ptr; dbau = 0; dbc = n % 2 ^ 22 } ∷ []
entries (suc left) ptr n =
    record { dba = u32 ptr; dbau = 0; dbc = 8191 } ∷ entries left ptr (sub32 n 8192)

-- `(uint16_t)((n - 1) >> 13) + 1`, stored in 16 bits
unfoldable pub entry_count : ℕ → ℕ
entry_count n = u16 (u16 (sub32 n 1 >>> 13) + 1)

-- What `header` becomes: `cfl` is the size of fis_h2d_t in words.
unfoldable pub prepared : Header → ℕ → Header
prepared h n = record h { cfl = 5; w = 0; prdtl = entry_count n }

unfoldable pub command_table : H2d → ℕ → ℕ → CommandTable
command_table fis ptr n = record {
  cfis = fis;
  prdt_entry = entries (sub32 (entry_count n) 1) ptr n;
}

module _ {W : Type 0} (hba : Hba W) where
  unfoldable pub ahci_find_slot : W → W × Option ℕ
  ahci_find_slot w =
      let (w1, sact_now) = hba.get sact w in
      let (w2, ci_now) = hba.get ci w1 in (w2, find_slot_from 32 0 (bit_or sact_now ci_now))

  -- The wait for the device; the answer is whether `spin` is left.
  unfoldable pub spin_idle : ℕ → W → W × Bool
  spin_idle zero w = ((hba.get tfd w).0, false)
  spin_idle (suc spin) w =
      let (w', status) = hba.get tfd w in
      elim (bit_and status 0x88 == 0) [ true ↦ (w', true) | false ↦ spin_idle spin w' ]

  unfoldable pub has_failed : W → W × Bool
  has_failed w = let (w', status) = hba.get is w in (w', not (bit_and status 0x40000000 == 0))

  -- `while (port->ci & (1 << slot))`, and the test behind it
  unfoldable pub wait_done : ℕ → ℕ → W → Option (W × Bool)
  wait_done zero slot w = none
  wait_done (suc fuel) slot w =
      let (w1, issued) = hba.get ci w in
      let (w2, failed) = has_failed w1 in
      elim (bit_and issued (1 <<< slot) == 0) [
        | true ↦ some (w2, not failed)
        | false ↦ elim failed [ true ↦ some (w2, false) | false ↦ wait_done fuel slot w2 ]
      ]

  -- The command header and the command table.
  unfoldable pub prepare : ℕ → H2d → ℕ → ℕ → W → W
  prepare slot fis ptr n w =
      let (w1, low) = hba.get clb w in
      let (w2, high) = hba.get clbu w1 in
      let list = u32 (low + 2 ^ 32 * high) in
      let h = prepared (hba.header list slot w2) n in
      let w3 = hba.set_header list slot h w2 in
      hba.set_table (u32 (h.ctba + 2 ^ 32 * h.ctbau)) (command_table fis ptr n) w3

  -- From the wait for the device on.
  unfoldable pub issue : ℕ → ℕ → W → Option (W × Bool)
  issue fuel slot w =
      let (w1, idle) = spin_idle (2 ^ 22) w in
      elim idle [
        | false ↦ some (w1, false)
        | true ↦
            let (w2, issued) = hba.get ci w1 in
            wait_done fuel slot (hba.put ci (bit_or issued (1 <<< slot)) w2)
      ]

  unfoldable pub ahci_send_h2d : ℕ → H2d → ℕ → ℕ → W → Option (W × Bool)
  ahci_send_h2d fuel fis ptr n w =
      let (w1, found) = ahci_find_slot (hba.put is 0xFFFFFFFF w) in
      elim found [
        | none ↦ some (w1, false)
        | some slot ↦ issue fuel slot (prepare slot fis ptr n w1)
      ]

-- The command of `ahci_sector_write` and `ahci_sector_read`.
unfoldable pub sector_fis : ℕ → ℕ → ℕ → H2d
sector_fis command lba count = record {
  fis_type = 0x27;
  c = 1;
  command = command;
  device = 0x40;
  lba_low = u32 lba % 2 ^ 24;
  lba_high = u32 (lba >>> 24) % 2 ^ 24;
  count = u16 count;
}

unfoldable pub ahci_sector_write : {W : Type 0} → Hba W → ℕ → ℕ → ℕ → ℕ → W → Option (W × Bool)
ahci_sector_write hba fuel lba ptr count w =
    ahci_send_h2d hba fuel (sector_fis 0x35 lba count) ptr (u32 (count <<< 9)) w

unfoldable pub ahci_sector_read : {W : Type 0} → Hba W → ℕ → ℕ → ℕ → ℕ → W → Option (W × Bool)
ahci_sector_read hba fuel lba ptr count w =
    ahci_send_h2d hba fuel (sector_fis 0x25 lba count) ptr (u32 (count <<< 9)) w
