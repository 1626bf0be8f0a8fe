-- ===== src/Event.antt =====
-- nop/event.c: the table of event handles. A `handle_t` has its `event_name` array as a memory of its
-- own, and `func` as the identity of the callback. `fresh` stands for the slots that `realloc` adds,
-- whose contents the code does not initialise.
pub mod Laws
pub mod Trigger
mod Examples
use nop.Base.{
  ℕ, zero, suc, ◌+◌, Bool, true, false, ◌&&◌, not, Option, none, some, List, [], ◌∷◌, ltb, ◌==◌,
  if◌then◌else◌, get_elem?, set, Memory,
}
use nop.Base.Int.{ℤ, pos, negsuc, is_zero}
use nop.CString.{strncmp}
use nop.Slots.{Table, grow, insert, remove, find_from}

abbrev pub event_name_length : ℕ
event_name_length = 15

abbrev pub handle_alloc_step : ℕ
handle_alloc_step = 8

pub record Handle : Type 0 where
  pub event_name : Memory
  pub func : ℕ
  pub context : ℕ
  pub free : ℕ

pub record Event : Type 0 where
  pub name : Memory
  pub context : ℕ

abbrev pub is_free : Handle → Bool
is_free h = not (h.free == 0)

-- `handles[i] = handle; handles[i].free = 0`
abbrev pub place : Handle → ℕ → List Handle → List Handle
place h i slots = set slots i (record h { free = 0 })

unfoldable pub set_free : ℕ → List Handle → List Handle
set_free i [] = []
set_free zero (h ∷ slots) = record h { free = 1 } ∷ slots
set_free (suc i) (h ∷ slots) = h ∷ set_free i slots

unfoldable pub handle_add : List Handle → Handle → Table Handle → Table Handle × Option ℕ
handle_add fresh handle t = insert is_free (place handle) (grow handle_alloc_step fresh t)

-- `!free && !strncmp(event_name, name, EVENT_NAME_LENGTH)`
unfoldable pub listens : Memory → Handle → Bool
listens name h = h.free == 0 && is_zero (strncmp h.event_name 0 name 0 event_name_length)

unfoldable pub handle_find : Memory → Table Handle → Option ℕ
handle_find name t = find_from (listens name) 0 t.slots

-- `none` is an access out of range.
unfoldable pub handle_free : ℤ → Table Handle → Option (Table Handle)
handle_free (negsuc n) t = some t
handle_free (pos id) t = remove is_free set_free id t

-- The callbacks belong to other parts of the kernel, and may change the table: `W` is the state of
-- the system, `table` reads the table from it, and `call i event` runs `handles[i].func`.
module _ {W : Type 0} (table : W → Table Handle) (call : ℕ → Event → W → W) where
  unfoldable pub trigger_one : Event → ℕ → W → W
  trigger_one event i w = elim (get_elem? (table w).slots i) [
    | none ↦ w
    | some h ↦ if listens event.name h then call i event w else w
  ]

  -- The table is looked at anew in each round, so a callback that adds handles makes more rounds:
  -- the fuel bounds their number.
  unfoldable pub trigger_loop : ℕ → Event → ℕ → W → W
  trigger_loop zero event i w = w
  trigger_loop (suc fuel) event i w = elim (ltb i (table w).total) [
    | true ↦ trigger_loop fuel event (i + 1) (trigger_one event i w)
    | false ↦ w
  ]

  unfoldable pub event_trigger : ℕ → Event → W → W
  event_trigger fuel event w = trigger_loop fuel event 0 w
