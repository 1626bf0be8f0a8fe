-- ===== src/Hba/Port.antt =====
-- nop/tasks/ahci.c: the set-up of a port. `words` reads the buffer that IDENTIFY fills, and the allocator of
-- pages, the clearing of memory and the registration of the device are parameters.
use nop.Base.{
  ℕ, zero, suc, ◌+◌, ◌*◌, ◌^◌, ◌<◌, ◌≤◌, arith, Bool, true, false, not, ◌&&◌, ◌||◌, bit_and, bit_or,
  Option, none, some, ◌==◌, if◌then◌else◌, u32, u64, ◌<<<◌, ◌>>>◌,
}
use nop.Ahci.{Ahci}
use nop.Hba.{Hba, clb, clbu, fb, fbu, cmd, Header, H2d, ahci_send_h2d}

module _ {W : Type 0} (hba : Hba W) where
  -- `while (port->cmd & mask);`
  unfoldable pub wait_clear : ℕ → ℕ → W → Option W
  wait_clear zero mask w = none
  wait_clear (suc fuel) mask w =
      let (w', state) = hba.get cmd w in
      elim (bit_and state mask == 0) [ true ↦ some w' | false ↦ wait_clear fuel mask w' ]

  unfoldable pub set_bits : ℕ → W → W
  set_bits mask w = let (w', state) = hba.get cmd w in hba.put cmd (bit_or state mask) w'

  unfoldable pub keep_bits : ℕ → W → W
  keep_bits mask w = let (w', state) = hba.get cmd w in hba.put cmd (bit_and state mask) w'

  unfoldable pub ahci_start_engine : ℕ → W → Option W
  ahci_start_engine fuel w = elim (wait_clear fuel 0x8000 w) [
    | none ↦ none
    | some w' ↦ some (set_bits 0x0001 (set_bits 0x0010 w'))
  ]

  -- The masks are ~0xFFFFFFFE and ~0xFFFFFFEF.
  unfoldable pub ahci_stop_engine : ℕ → W → Option W
  ahci_stop_engine fuel w = wait_clear fuel 0xC000 (keep_bits 0x10 (keep_bits 0x01 w))

  -- What the words of the buffer say of the drive.
  unfoldable pub identified : (ℕ → ℕ) → Ahci → Ahci
  identified buffer ahci =
      let can_lba48 = bit_and (buffer 83 >>> 10) 1 == 1 in
      let large = buffer 100 + (buffer 101 <<< 16) + (buffer 102 <<< 32) + (buffer 103 <<< 48) in
      let small = buffer 60 + (buffer 61 <<< 16) in
      record ahci {
        can_lba48 = can_lba48;
        sector_width = 9;
        count = if can_lba48 then u64 large else u64 small;
      }

  -- `buffer` is the address of the local array.
  unfoldable pub ahci_identify : ℕ → (W → ℕ → ℕ) → ℕ → Ahci → W → Option (W × Ahci × Bool)
  ahci_identify fuel words buffer ahci w =
      let fis : H2d = record {
        fis_type = 0x27;
        c = 1;
        command = 0xEC;
        device = 0;
        lba_low = 0;
        lba_high = 0;
        count = 0;
      } in
      elim (ahci_send_h2d hba fuel fis buffer 512 w) [
        | none ↦ none
        | some (w', ok) ↦ elim ok [
          | true ↦ some (w', identified (words w') ahci, true)
          | false ↦ some (w', ahci, false)
        ]
      ]

  unfoldable pub init_header : ℕ → ℕ → Header → Header
  init_header port_buffer i h =
      let at = port_buffer + 1280 + 256 * i in
      record h { prdtl = 8; ctba = u32 at; ctbau = u32 (at >>> 32) }

  -- The loop over the command headers, from `i` on.
  unfoldable pub init_headers : ℕ → ℕ → ℕ → W → W
  init_headers zero port_buffer i w = w
  init_headers (suc left) port_buffer i w =
      init_headers left port_buffer (i + 1)
        (hba.set_header port_buffer i (init_header port_buffer i (hba.header port_buffer i w)) w)

  -- `alloc` is page_alloc of 3 pages in steps of 1024, `clear` the memset, `add` device_add of a `disk`, and
  -- `fresh` what malloc gives.
  unfoldable pub ahci_init_port :
      ℕ → (W → W × ℕ) → (ℕ → ℕ → W → W) → (Ahci → W → W) → (W → ℕ → ℕ) → ℕ → Ahci → W → Option W
  ahci_init_port fuel alloc clear add words buffer fresh w = elim (ahci_stop_engine fuel w) [
    | none ↦ none
    | some w0 ↦
        let (w1, port_buffer) = alloc w0 in
        let w2 = clear port_buffer 9472 w1 in
        let w3 = hba.put clbu (u32 (port_buffer >>> 32)) (hba.put clb (u32 port_buffer) w2) in
        let w4 =
          hba.put fbu (u32 ((port_buffer + 1024) >>> 32))
            (hba.put fb (u32 (port_buffer + 1024)) w3) in
        elim (ahci_start_engine fuel (init_headers 32 port_buffer 0 w4)) [
          | none ↦ none
          | some w5 ↦ elim (ahci_identify fuel words buffer fresh w5) [
            | none ↦ none
            | some (w6, ahci, ok) ↦ some (add (record ahci { offset = 0 }) w6)
          ]
        ]
  ]

-- Whether `ahci_init` sets a port up: it is implemented, a drive is there and active, and it is no ATAPI
-- device, no enclosure and no multiplier.
unfoldable pub is_drive : ℕ → ℕ → ℕ → ℕ → Bool
is_drive pi i ssts sig =
    not (bit_and pi (1 <<< i) == 0)
    && (bit_and ssts 0x0F == 3 && bit_and (ssts >>> 8) 0x0F == 1)
    && not (sig == 0xEB140101 || sig == 0xC33C0101 || sig == 0x96690101)

-- The table of a slot, of 256 bytes, lies behind those before it, and in the buffer.
pub init_header-apart :
    {W : Type 0} (hba : Hba W) (port_buffer i j : ℕ) (g h : Header)
    → i < j
    → j < 32
    → port_buffer + 9472 ≤ 2 ^ 32
    → ((init_header hba port_buffer i g).ctba + 256 ≤ (init_header hba port_buffer j h).ctba)
      × ((init_header hba port_buffer j h).ctba + 256 ≤ port_buffer + 9472)
unfolding init_header
init_header-apart hba port_buffer i j g h lt most fits = (omega arith, omega arith)
