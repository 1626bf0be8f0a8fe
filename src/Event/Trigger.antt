-- ===== src/Event/Trigger.antt =====
-- nop/event.c: an event runs the callback of each listening handle once, in the order of the slots.
use nop.Base.{
  ℕ, zero, suc, ◌+◌, ◌≤◌, ◌≡◌, refl, arith, Bool, true, false, some, List, [], ◌∷◌, ltb,
  if◌then◌else◌, length, get_elem?, ap, sym, ◌∙◌, Bool-cases, inl, inr, Memory,
}
use mathlib.Core.Path.{subst}
use nop.Base.{◌&&◌, ◌==◌}
use nop.Base.Int.{is_zero}
use nop.CString.{strncmp}
use nop.Slots.{Table}
use nop.Event.{Handle, Event, listens, trigger_one, trigger_loop, event_trigger}

-- The handle is in use, and has the name of the event, as far as 15 characters go.
abbrev pub hears : Memory → Handle → Bool
hears name h = h.free == 0 && is_zero (strncmp h.event_name 0 name 0 15)

pub listens-hears : (name : Memory) (h : Handle) → listens name h ≡ hears name h
unfolding listens
listens-hears name h = refl

-- The indices of the handles that hear the event, from index `i` on.
unfoldable pub listeners : Memory → ℕ → List Handle → List ℕ
listeners name i [] = []
listeners name i (h ∷ slots) =
    if hears name h then i ∷ listeners name (i + 1) slots else listeners name (i + 1) slots

module _ {W : Type 0} (table : W → Table Handle) (call : ℕ → Event → W → W) where
  pub run_all : Event → List ℕ → W → W
  run_all event [] w = w
  run_all event (i ∷ is) w = run_all event is (call i event w)

  -- Callbacks that leave the table as it is.
  abbrev pub KeepsTable : Type 0
  KeepsTable = (i : ℕ) (event : Event) (w : W) → table (call i event w) ≡ table w

  -- The slots from `i` on are `rest`.
  abbrev Suffix : ℕ → List Handle → Table Handle → Type 0
  Suffix i rest t =
      ((k : ℕ) → get_elem? t.slots (i + k) ≡ get_elem? rest k) × (i + length rest ≡ t.total)

  Suffix-suc :
      (i : ℕ) (h : Handle) (rest : List Handle) (t : Table Handle)
      → Suffix i (h ∷ rest) t
      → Suffix (i + 1) rest t
  Suffix-suc i h rest t s = (λ k. ap (get_elem? t.slots) (step k) ∙ s.0 (suc k), omega (arith, s.1))
    where
      step : (k : ℕ) → i + 1 + k ≡ i + suc k
      step k = omega arith

  trigger_one-cons :
      (event : Event) (i : ℕ) (h : Handle) (rest : List Handle) (w : W)
      → Suffix i (h ∷ rest) (table w)
      → trigger_one table call event i w ≡ (if hears event.name h then call i event w else w)
  unfolding trigger_one
  trigger_one-cons event i h rest w s =
      let slot : get_elem? (table w).slots i ≡ some h =
        ap (get_elem? (table w).slots) (omega arith) ∙ s.0 0 in
      rw (slot, trigger_one, listens-hears event.name h) refl

  trigger_loop_lem :
      (keeps : KeepsTable) (rest : List Handle) (fuel : ℕ) (event : Event) (i : ℕ) (w : W)
      → Suffix i rest (table w)
      → length rest ≤ fuel
      → trigger_loop table call fuel event i w ≡ run_all event (listeners event.name i rest) w
  unfolding trigger_loop listeners run_all
  trigger_loop_lem keeps [] zero event i w s enough = refl
  trigger_loop_lem keeps [] (suc fuel) event i w s enough =
      let stop : ltb i (table w).total ≡ false = ground (arith, s.1) in rw (stop, trigger_loop) refl
  trigger_loop_lem keeps (h ∷ rest) zero event i w s enough = absurd (omega arith)
  trigger_loop_lem keeps (h ∷ rest) (suc fuel) event i w s enough =
      let more : ltb i (table w).total ≡ true = ground (arith, s.1) in
      rw (more, trigger_loop, trigger_one-cons event i h rest w s)
        (elim (Bool-cases (hears event.name h)) [
          | inl hit ↦ rw hit (
              trigger_loop_lem keeps rest fuel event (i + 1) (call i event w)
                (subst (Suffix (i + 1) rest) (sym (keeps i event w))
                  (Suffix-suc i h rest (table w) s))
                (omega arith))
          | inr miss ↦ rw miss (
              trigger_loop_lem keeps rest fuel event (i + 1) w (Suffix-suc i h rest (table w) s)
                (omega arith))
        ])

  -- If no callback changes the table, `event_trigger` ends, and has run the callback of every handle
  -- in use with the name of the event, as far as 15 characters go, exactly once, in the order of the
  -- slots.
  pub event_trigger-run_all :
      (keeps : KeepsTable) (fuel : ℕ) (event : Event) (w : W)
      → length (table w).slots ≡ (table w).total
      → (table w).total ≤ fuel
      → event_trigger table call fuel event w
        ≡ run_all event (listeners event.name 0 (table w).slots) w
  unfolding event_trigger
  event_trigger-run_all keeps fuel event w size enough =
      trigger_loop_lem keeps (table w).slots fuel event 0 w
        (λ k. ap (get_elem? (table w).slots) (omega arith), omega arith) (omega arith)
