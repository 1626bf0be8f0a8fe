-- ===== src/Idt/Laws.antt =====
-- nop/arch/i386/tasks/idt.c: which handles an interrupt runs, and where its gate leads.
use nop.Base.{
  ℕ, zero, suc, ◌+◌, ◌*◌, ◌^◌, ◌<◌, ◌≤◌, ◌≡◌, refl, sym, ap, ◌∙◌, arith, ◌&&◌, List, [], ◌∷◌,
  length, get_elem?, some, ◌==◌, if◌then◌else◌, Memory, IsBytes,
}
use nop.Slots.{Table}
use nop.Event.{Handle, Event}
use nop.Event.Trigger.{listens-hears, listeners, run_all, KeepsTable, event_trigger-run_all}
use nop.Idt.{Gate, gate_of, gates_from, interrupt_name, idt_handle}
use nop.Idt.Names.{listens-interrupt_name}

-- Each handle has the name of the interrupt of its number.
abbrev pub AllInterrupts : List Handle → List ℕ → Type 0
AllInterrupts [] ns = Unit
AllInterrupts (h ∷ slots) [] = ⊥
AllInterrupts (h ∷ slots) (n ∷ ns) =
    (n < 2 ^ 32)
    × ((junk : Memory) × IsBytes junk × (h.event_name ≡ interrupt_name junk n))
    × AllInterrupts slots ns

-- The indices of the handles in use that were registered for the interrupt, from the index `i` on.
unfoldable pub registered : ℕ → ℕ → List Handle → List ℕ → List ℕ
registered id i [] ns = []
registered id i (h ∷ slots) [] = []
registered id i (h ∷ slots) (n ∷ ns) =
    let rest = registered id (i + 1) slots ns in if h.free == 0 && n == id then i ∷ rest else rest

listeners-registered :
    (junk : Memory) (id i : ℕ) (slots : List Handle) (ns : List ℕ)
    → IsBytes junk
    → id < 2 ^ 32
    → AllInterrupts slots ns
    → listeners (interrupt_name junk id) i slots ≡ registered id i slots ns
unfolding listeners registered
listeners-registered junk id i [] ns bytes small all = refl
listeners-registered junk id i (h ∷ slots) [] bytes small all = absurd all
listeners-registered junk id i (h ∷ slots) (n ∷ ns) bytes small all =
    let (old, old_bytes, name) = all.1 in
    let test =
      sym (listens-hears (interrupt_name junk id) h)
      ∙ listens-interrupt_name h old junk n id old_bytes bytes all.0 small name in
    let rest = listeners-registered junk id (i + 1) slots ns bytes small all.2 in
    rw (test, rest) refl

module _ {W : Type 0} (table : W → Table Handle) (call : ℕ → Event → W → W) where
  -- If every handle has the name of an interrupt, and no callback changes the table, then an interrupt
  -- runs the callbacks of the handles in use that were registered for its number, each once, in the order
  -- of the slots, and no others.
  pub idt_handle-run_all :
      (keeps : KeepsTable table call) (fuel : ℕ) (junk : Memory) (id : ℕ) (ns : List ℕ) (w : W)
      → length (table w).slots ≡ (table w).total
      → (table w).total ≤ fuel
      → IsBytes junk
      → id < 2 ^ 32
      → AllInterrupts (table w).slots ns
      → idt_handle table call fuel junk id w
        ≡ run_all table call
            (record { name = interrupt_name junk id; context = 0 })
            (registered id 0 (table w).slots ns)
            w
  unfolding idt_handle
  idt_handle-run_all keeps fuel junk id ns w size enough bytes small all =
      let event : Event = record { name = interrupt_name junk id; context = 0 } in
      event_trigger-run_all table call keeps fuel event w size enough
      ∙ ap (λ (is : List ℕ). run_all table call event is w)
          (listeners-registered junk id 0 (table w).slots ns bytes small all)

gates_from-gate_of :
    (left i k : ℕ) (handles : ℕ → ℕ)
    → k < left
    → get_elem? (gates_from left i handles) k ≡ some (gate_of (handles (i + k)))
unfolding gates_from
gates_from-gate_of zero i k handles lt = absurd (omega arith)
gates_from-gate_of (suc left) i zero handles lt =
    ap (λ (j : ℕ). some (gate_of (handles j))) (omega arith)
gates_from-gate_of (suc left) i (suc k) handles lt =
    gates_from-gate_of left (i + 1) k handles (omega arith)
    ∙ ap (λ (j : ℕ). some (gate_of (handles j))) (omega arith)

-- Each of the 256 gates leads to the address of its handle.
gates_from-offset :
    (k : ℕ) (handles : ℕ → ℕ)
    → k < 256
    → handles k < 2 ^ 32
    → (g : Gate) × (get_elem? (gates_from 256 0 handles) k ≡ some g)
      × (g.offset_low + 2 ^ 16 * g.offset_high ≡ handles k)
unfolding gate_of
gates_from-offset k handles lt small = (
  gate_of (handles k),
  gates_from-gate_of 256 0 k handles lt ∙ ap (λ (j : ℕ). some (gate_of (handles j))) (omega arith),
  ground arith,
)
