-- ===== src/Idt.antt =====
-- nop/arch/i386/tasks/idt.c: the interrupt table, and the event that an interrupt triggers. The port
-- functions, `lidt` and `sti` are assembly, and parameters on the state `W` of the machine; `handles`
-- gives the addresses in idt_handles. `junk` is what the local `event` held before.
pub mod Names
pub mod Laws
mod Examples
use nop.Base.{ℕ, zero, suc, ◌+◌, List, [], ◌∷◌, map, u16, u32, ◌>>>◌, Memory, of_list, codes}
use nop.CString.{memcpy_from}
use nop.Digits.{ulong_to_str}
use nop.Slots.{Table}
use nop.Event.{Handle, Event, event_name_length, event_trigger}

-- idt_entry_t of the header, without the fields that are not set.
pub record Gate : Type 0 where
  pub offset_low : ℕ
  pub segment : ℕ
  pub gate_type : ℕ
  pub max_ring : ℕ
  pub present : ℕ
  pub offset_high : ℕ

abbrev pub int_gate_32 : ℕ
int_gate_32 = 0x0E

unfoldable pub gate_of : ℕ → Gate
gate_of handle = record {
  offset_low = u16 (handle >>> 0);
  segment = 0x0008;
  gate_type = int_gate_32;
  max_ring = 0;
  present = 1;
  offset_high = u16 (handle >>> 16);
}

-- The loop over the 256 entries, from the entry `i` on.
unfoldable pub gates_from : ℕ → ℕ → (ℕ → ℕ) → List Gate
gates_from zero i handles = []
gates_from (suc left) i handles = gate_of (handles i) ∷ gates_from left (i + 1) handles

module _ {W : Type 0} (outb : ℕ → ℕ → W → W) where
  unfoldable pub idt_pic_on : W → W
  idt_pic_on w = outb 0x12 0x0040 (outb 0x35 0x0040 (outb 0x00 0x00A1 (outb 0x00 0x0021 w)))

  unfoldable pub idt_pic_off : W → W
  idt_pic_off w = outb 0xFF 0x00A1 (outb 0xFF 0x0021 w)

  -- `outb(value, port); io_wait();` for each pair
  unfoldable pub send_all : (W → W) → List (ℕ × ℕ) → W → W
  send_all io_wait [] w = w
  send_all io_wait ((value, port) ∷ rest) w = send_all io_wait rest (io_wait (outb value port w))

  abbrev pub pic_words : List (ℕ × ℕ)
  pic_words =
      (0x11, 0x0020)
      ∷ (0x11, 0x00A0)
      ∷ (0x20, 0x0021)
      ∷ (0x28, 0x00A1)
      ∷ (0x04, 0x0021)
      ∷ (0x02, 0x00A1)
      ∷ (0x01, 0x0021)
      ∷ (0x01, 0x00A1)
      ∷ []

  unfoldable pub idt_task : (W → W) → (List Gate → W → W) → (W → W) → (ℕ → ℕ) → W → W
  idt_task io_wait lidt sti handles w =
      sti (lidt (gates_from 256 0 handles) (idt_pic_on (send_all io_wait pic_words w)))

-- `strcpy(event.name, "int"); ulong_to_str(id, 10, event.name + 3, EVENT_NAME_LENGTH - 3)`
unfoldable pub interrupt_name : Memory → ℕ → Memory
interrupt_name junk id = ulong_to_str (memcpy_from (of_list (codes "int")) junk 0 0 4) id 10 3 12

-- The fuel is that of event_trigger.
unfoldable pub idt_handle :
    {W : Type 0} → (W → Table Handle) → (ℕ → Event → W → W) → ℕ → Memory → ℕ → W → W
idt_handle table call fuel junk id w =
    event_trigger table call fuel (record { name = interrupt_name junk id; context = 0 }) w
