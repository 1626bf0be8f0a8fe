-- ===== src/Idt/Examples.antt =====
-- nop/arch/i386/tasks/idt.c: a run, and the law at a small table.
use nop.Base.{ℕ, ◌≡◌, refl, arith, List, [], ◌∷◌, Memory, IsBytes, of_list}
use nop.Slots.{Table}
use nop.Event.{Handle, Event}
use nop.Event.Trigger.{run_all}
use nop.Idt.{interrupt_name, idt_handle}
use nop.Idt.Laws.{registered, idt_handle-run_all}

abbrev blank : Memory
blank = of_list []

blank-IsBytes : IsBytes blank
blank-IsBytes a = omega arith

abbrev handle : ℕ → ℕ → Handle
handle n f = record { event_name = interrupt_name blank n; func = 0; context = 0; free = f }

abbrev handles : Table Handle
handles = record {
  slots = handle 33 0 ∷ handle 3 0 ∷ handle 33 1 ∷ handle 33 0 ∷ [];
  used = 3;
  total = 4;
}

abbrev table_of : List ℕ → Table Handle
table_of w = handles

-- The callbacks note that they ran.
abbrev note : ℕ → Event → List ℕ → List ℕ
note i event w = i ∷ w

numbers : registered 33 0 handles.slots (33 ∷ 3 ∷ 33 ∷ 33 ∷ []) ≡ (0 ∷ 3 ∷ [])
unfolding registered
numbers = refl

idt_handle-run_all_example :
    idt_handle table_of note 4 blank 33 []
    ≡ run_all table_of note
        (record { name = interrupt_name blank 33; context = 0 })
        (registered 33 0 handles.slots (33 ∷ 3 ∷ 33 ∷ 33 ∷ []))
        []
idt_handle-run_all_example =
    idt_handle-run_all table_of note (λ i event w. refl) 4 blank 33 (33 ∷ 3 ∷ 33 ∷ 33 ∷ []) [] refl
      (omega arith) blank-IsBytes (omega arith)
      (
        (omega arith),
        (blank, blank-IsBytes, refl),
        (
          (omega arith),
          (blank, blank-IsBytes, refl),
          (
            (omega arith),
            (blank, blank-IsBytes, refl),
            ((omega arith), (blank, blank-IsBytes, refl), tt),
          ),
        ),
      )
