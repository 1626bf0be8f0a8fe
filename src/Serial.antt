-- ===== src/Serial.antt =====
-- nop/arch/i386/tasks/serial.c: a serial port behind its registers. `inb` and `outb` are assembly, and
-- parameters on the state `W` of the machine. A wait for the port may not end: its fuel bounds the polls,
-- and `none` is a wait that goes on.
pub mod Laws
mod Examples
use nop.Base.{
  ℕ, zero, suc, ◌+◌, bit_and, Bool, true, false, not, Option, none, some, List, [], ◌∷◌, ◌==◌,
  if◌then◌else◌, u16, Memory, write,
}
use nop.Api.{Feature, feature_present, feature_write, feature_read, feature_page_size}

module _ {W : Type 0} (inb : ℕ → W → W × ℕ) (outb : ℕ → ℕ → W → W) where
  unfoldable pub serial_write_ready : ℕ → W → W × ℕ
  serial_write_ready port w = let (w', status) = inb (u16 (port + 5)) w in (w', bit_and status 0x20)

  unfoldable pub serial_read_ready : ℕ → W → W × ℕ
  serial_read_ready port w = let (w', status) = inb (u16 (port + 5)) w in (w', bit_and status 0x01)

  -- `while (!serial_write_ready(port));`, and the same for the read
  unfoldable pub wait_write : ℕ → ℕ → W → Option W
  wait_write zero port w = none
  wait_write (suc fuel) port w =
      let (w', ready) = serial_write_ready port w in
      elim (ready == 0) [ true ↦ wait_write fuel port w' | false ↦ some w' ]

  unfoldable pub wait_read : ℕ → ℕ → W → Option W
  wait_read zero port w = none
  wait_read (suc fuel) port w =
      let (w', ready) = serial_read_ready port w in
      elim (ready == 0) [ true ↦ wait_read fuel port w' | false ↦ some w' ]

  unfoldable pub serial_write : ℕ → ℕ → ℕ → W → Option W
  serial_write fuel port value w = elim (wait_write fuel port w) [
    | none ↦ none
    | some w' ↦ some (outb value (port + 0) w')
  ]

  unfoldable pub serial_read : ℕ → ℕ → W → Option (W × ℕ)
  serial_read fuel port w = elim (wait_read fuel port w) [
    | none ↦ none
    | some w' ↦ some (inb (port + 0) w')
  ]

  -- The loops of the two functions below; the fuel is that of each wait.
  unfoldable pub write_loop : ℕ → ℕ → Memory → ℕ → ℕ → W → Option W
  write_loop fuel port mem ptr zero w = some w
  write_loop fuel port mem ptr (suc n) w = elim (serial_write fuel port (mem ptr) w) [
    | none ↦ none
    | some w' ↦ write_loop fuel port mem (ptr + 1) n w'
  ]

  unfoldable pub read_loop : ℕ → ℕ → Memory → ℕ → ℕ → W → Option (W × Memory)
  read_loop fuel port mem ptr zero w = some (w, mem)
  read_loop fuel port mem ptr (suc n) w = elim (serial_read fuel port w) [
    | none ↦ none
    | some (w', value) ↦ read_loop fuel port (write mem ptr value) (ptr + 1) n w'
  ]

  unfoldable pub serial_device_write : ℕ → ℕ → Memory → ℕ → ℕ → W → Option (W × ℕ)
  serial_device_write fuel port mem ptr n w = elim (write_loop fuel port mem ptr n w) [
    | none ↦ none
    | some w' ↦ some (w', n)
  ]

  unfoldable pub serial_device_read : ℕ → ℕ → Memory → ℕ → ℕ → W → Option ((W × Memory) × ℕ)
  serial_device_read fuel port mem ptr n w = elim (read_loop fuel port mem ptr n w) [
    | none ↦ none
    | some out ↦ some (out, n)
  ]

  -- The set-up of a port, up to its loopback test.
  unfoldable pub probe : ℕ → W → W × ℕ
  probe port w =
      let w = outb 0x00 (port + 1) w in
      let w = outb 0x80 (port + 3) w in
      let w = outb 0x03 (port + 0) w in
      let w = outb 0x00 (port + 1) w in
      let w = outb 0x03 (port + 3) w in
      let w = outb 0xC7 (port + 2) w in
      let w = outb 0x0B (port + 4) w in
      let w = outb 0x1E (port + 4) w in let w = outb 0xAE (port + 0) w in inb (port + 0) w

  -- `add` is device_add of a `term` device on the port.
  unfoldable pub try_port : (ℕ → W → W) → ℕ → W → W
  try_port add port w =
      let (w', value) = probe port w in
      if value == 0xAE then add port (outb 0x0F (port + 4) w') else w'

  unfoldable pub try_ports : (ℕ → W → W) → List ℕ → W → W
  try_ports add [] w = w
  try_ports add (port ∷ ports) w = try_ports add ports (try_port add port w)

  abbrev pub serial_ports : List ℕ
  serial_ports = 0x03F8 ∷ 0x02F8 ∷ 0x03E8 ∷ 0x02E8 ∷ 0x05F8 ∷ 0x04F8 ∷ 0x05E8 ∷ 0x04E8 ∷ []

  unfoldable pub serial_task : (ℕ → W → W) → W → W
  serial_task add w = try_ports add serial_ports w

unfoldable pub serial_device_feature : Feature → ℕ
serial_device_feature feature_present = 1
serial_device_feature feature_write = 1
serial_device_feature feature_read = 1
serial_device_feature feature_page_size = 1
serial_device_feature feature = 0
