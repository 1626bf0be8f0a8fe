-- ===== src/Event/Examples.antt =====
-- nop/event.c: runs, and the laws at a small table.
use nop.Base.{
  true, ℕ, ◌≡◌, refl, arith, List, ◌∷◌, [], none, some, get_elem?, Memory, IsBytes, of_list, codes,
  of_list-IsBytes, replicate,
}
use nop.CString.{strncmp}
use nop.Slots.{Table, first_free, grow, insert}
use nop.Slots.Laws.{IsValid, flags}
use nop.Slots.Flags.{count_used}
use nop.Event.{
  Handle, Event, is_free, handle_add, listens, trigger_one, trigger_loop, event_trigger,
  handle_alloc_step,
}
use nop.Event.Laws.{AreFresh, handle_add-IsValid, handle_add-IsStuck, IsStuck}
use nop.Event.Trigger.{listeners, run_all, event_trigger-run_all}

abbrev text : Memory
text = of_list (codes "int33")

abbrev handle : ℕ → Handle
handle f = record { event_name = text; func = 7; context = 0; free = f }

abbrev empty : Table Handle
empty = record { slots = []; used = 0; total = 0 }

abbrev fresh : List Handle
fresh = replicate 8 (handle 1)

abbrev zeroed : List Handle
zeroed = replicate 8 (handle 0)

abbrev two_handles : Table Handle
two_handles = record { slots = handle 0 ∷ handle 1 ∷ handle 0 ∷ []; used = 2; total = 3 }

first_handle : (handle_add fresh (handle 0) empty).1 ≡ some 0
unfolding handle_add grow insert first_free
first_handle = refl

-- On zeroed memory the very first registration fails.
no_handle : (handle_add zeroed (handle 0) empty).1 ≡ none
unfolding handle_add grow insert first_free
no_handle = refl

empty-IsValid : IsValid is_free empty
empty-IsValid = record { size = refl; counted = unfold count_used in refl }

two_handles-IsValid : IsValid is_free two_handles
two_handles-IsValid = record { size = refl; counted = unfold count_used in refl }

fresh-AreFresh : AreFresh fresh
fresh-AreFresh = record { size = refl; free = unfold count_used in refl }

handle_add-IsValid_example :
    IsValid is_free (handle_add fresh (handle 0) empty).0
    × ((i : ℕ) × ((handle_add fresh (handle 0) empty).1 ≡ some i)
        × (get_elem? (flags is_free (grow handle_alloc_step fresh empty)) i ≡ some true))
handle_add-IsValid_example = handle_add-IsValid fresh (handle 0) empty fresh-AreFresh empty-IsValid

-- What freeing slot 2 leaves.
abbrev one_handle : Table Handle
one_handle = record { slots = handle 0 ∷ handle 1 ∷ handle 1 ∷ []; used = 1; total = 3 }

abbrev stuck : Table Handle
stuck = record { slots = zeroed; used = 0; total = 8 }

handle_add-IsStuck_example : (handle_add zeroed (handle 0) empty ≡ (stuck, none)) × IsStuck stuck
handle_add-IsStuck_example =
    handle_add-IsStuck zeroed (handle 0) empty empty-IsValid refl refl (unfold count_used in refl)

text-IsBytes : IsBytes text
text-IsBytes = of_list-IsBytes (codes "int33") (omega arith)

-- A system that notes the callbacks that ran.
abbrev System : Type 0
System = Table Handle × List ℕ

abbrev note : ℕ → Event → System → System
note i event (t, ran) = (t, i ∷ ran)

abbrev interrupt : Event
interrupt = record { name = text; context = 0 }

both_ran : (event_trigger (λ (w : System). w.0) note 8 interrupt (two_handles, [])).1 ≡ 2 ∷ 0 ∷ []
unfolding event_trigger trigger_loop trigger_one listens strncmp
both_ran = refl

event_trigger-run_all_example :
    event_trigger (λ (w : System). w.0) note 8 interrupt (two_handles, [])
    ≡ run_all
        (λ (w : System). w.0)
        note
        interrupt
        (listeners text 0 two_handles.slots)
        (two_handles, [])
event_trigger-run_all_example =
    event_trigger-run_all (λ (w : System). w.0) note (λ i event w. refl) 8 interrupt
      (two_handles, []) refl (omega arith)
