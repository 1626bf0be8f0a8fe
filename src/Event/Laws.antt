-- ===== src/Event/Laws.antt =====
-- nop/event.c: registration keeps the table's count, succeeds when the new slots come out free, and
-- fails for ever when they do not; a lookup finds the first handle that listens.
use mathlib.Core.Path.{subst}
use mathlib.Core.Option.{some-injective, none-ne-some}
use nop.Base.{
  ℕ, zero, suc, ◌+◌, ◌≡◌, refl, arith, true, false, Option, none, some, List, [], ◌∷◌, ◌++◌, map,
  leb, length, get_elem?, ap, length-map, length-append, Memory,
}
use nop.Base.Int.{ℤ, pos, negsuc, split_test}
use nop.Slots.{Table, grow, insert, first_free}
use nop.Slots.Flags.{count_used, first_free-none, count_used-append}
use nop.Slots.Find.{IsFirst, Decided, find_from-IsFirst}
use nop.Slots.Laws.{
  IsValid, Marks, flags, grow-IsValid, insert-IsValid, remove-IsValid, insert-grow,
}
use mathlib.Core.List.{map-append}
use nop.Base.{◌↔◌, IsBytes, false}
use nop.CString.{strncmp}
use nop.CString.Compare.{SameText, strncmp-SameText}
use nop.Event.{
  event_name_length, Handle, is_free, place, set_free, handle_alloc_step, handle_add, handle_find,
  handle_free, listens,
}

place-Marks : (h : Handle) → Marks is_free false (place h)
place-Marks h i [] = refl
place-Marks h zero (x ∷ slots) = refl
place-Marks h (suc i) (x ∷ slots) = ap (λ l. is_free x ∷ l) (place-Marks h i slots)

set_free-Marks : Marks is_free true set_free
unfolding set_free
set_free-Marks i [] = refl
set_free-Marks zero (x ∷ slots) = refl
set_free-Marks (suc i) (x ∷ slots) = ap (λ l. is_free x ∷ l) (set_free-Marks i slots)

-- The new slots are as many as were asked for, and their `free` fields are not 0.
pub record AreFresh (fresh : List Handle) : Type 0 where
  pub size : length fresh ≡ handle_alloc_step
  pub free : count_used (map is_free fresh) ≡ 0

-- If the slots that `realloc` adds come out free, `handle_add` keeps the table valid, and hands out
-- the index of a slot that was not in use.
pub handle_add-IsValid :
    (fresh : List Handle) (handle : Handle) (t : Table Handle)
    → AreFresh fresh
    → IsValid is_free t
    → IsValid is_free (handle_add fresh handle t).0
      × ((i : ℕ) × ((handle_add fresh handle t).1 ≡ some i)
          × (get_elem? (flags is_free (grow handle_alloc_step fresh t)) i ≡ some true))
unfolding handle_add
handle_add-IsValid fresh handle t f v = (
  insert-IsValid is_free (place handle) (place-Marks handle)
      (grow-IsValid is_free handle_alloc_step fresh f.size f.free v),
  insert-grow is_free (place handle) handle_alloc_step fresh t (omega arith) f.size f.free v,
)

-- `handle_free` keeps the table valid, whichever slot it is given.
pub handle_free-IsValid :
    (id : ℤ) (t t' : Table Handle)
    → IsValid is_free t
    → handle_free id t ≡ some t'
    → IsValid is_free t'
unfolding handle_free
handle_free-IsValid (negsuc n) t t' v e = subst (IsValid is_free) (some-injective _ _ e) v
handle_free-IsValid (pos id) t t' v e = remove-IsValid is_free set_free id set_free-Marks v e

grow_full :
    (step : ℕ) (fresh : List Handle) (t : Table Handle)
    → leb t.total t.used ≡ true
    → grow step fresh t ≡ record t { slots = t.slots ++ fresh; total = t.total + step }
unfolding grow
grow_full step fresh t h = rw h

grow_room :
    (step : ℕ) (fresh : List Handle) (t : Table Handle)
    → leb t.total t.used ≡ false
    → grow step fresh t ≡ t
unfolding grow
grow_room step fresh t h = rw h

insert_full :
    (put : ℕ → List Handle → List Handle) (t : Table Handle)
    → first_free (flags is_free t) ≡ none
    → insert is_free put t ≡ (t, none)
unfolding insert
insert_full put t h = rw (h, insert)

-- A table whose slots are all in use stays so, for every later registration.
abbrev pub IsStuck : Table Handle → Type 0
IsStuck t = (fresh : List Handle) (h : Handle) → handle_add fresh h t ≡ (t, none)

-- If the slots that `realloc` adds to a full table read as in use, as zeroed memory does,
-- `handle_add` fails, leaves them in the table, and every later `handle_add` fails too.
pub handle_add-IsStuck :
    (fresh : List Handle) (handle : Handle) (t : Table Handle)
    → IsValid is_free t
    → t.used ≡ t.total
    → length fresh ≡ handle_alloc_step
    → count_used (map is_free fresh) ≡ handle_alloc_step
    → let t' = record t { slots = t.slots ++ fresh; total = t.total + handle_alloc_step } in
      (handle_add fresh handle t ≡ (t', none)) × IsStuck t'
unfolding handle_add
handle_add-IsStuck fresh handle t v at_end size in_use =
    let all_used : first_free (map is_free (t.slots ++ fresh)) ≡ none = first_free-none _ (
      omega (
        arith,
        ap count_used (map-append is_free t.slots fresh),
        count_used-append (flags is_free t) (map is_free fresh),
        length-map (t.slots ++ fresh) is_free,
        length-append t.slots fresh,
        v.size,
        v.counted,
      )) in
    let no_room : leb t.total t.used ≡ true = ground arith in
    let room : leb (t.total + handle_alloc_step) t.used ≡ false = ground arith in
    (
      rw (grow_full handle_alloc_step fresh t no_room) (insert_full (place handle) _ all_used),
      λ fresh' h. rw (grow_room handle_alloc_step fresh' _ room) (insert_full (place h) _ all_used),
    )

-- What a lookup answers: the first slot in use whose name is `name`, as far as 15 characters go.
abbrev pub IsNamed : Memory → Handle → Type 0
IsNamed name h = (h.free ≡ 0) × SameText h.event_name 0 name 0 event_name_length

abbrev pub IsFirstNamed : Memory → List Handle → Option ℕ → Type 0
IsFirstNamed name = IsFirst (IsNamed name)

abbrev pub AllBytes : List Handle → Type 0
AllBytes [] = Unit {0}
AllBytes (h ∷ slots) = IsBytes h.event_name × AllBytes slots

listens-IsNamed :
    (name : Memory) (h : Handle)
    → IsBytes name
    → IsBytes h.event_name
    → (listens name h ≡ true) ↔ IsNamed name h
unfolding listens
listens-IsNamed name h b b' =
    let same = strncmp-SameText h.event_name name b' b event_name_length 0 0 in
    let test = split_test h.free (strncmp h.event_name 0 name 0 event_name_length) in
    (λ e. let (unused, z) = test.0 e in (unused, same.0 z), λ n. test.1 (n.0, same.1 n.1))

decided :
    (name : Memory) (slots : List Handle)
    → IsBytes name
    → AllBytes slots
    → Decided (IsNamed name) (listens name) slots
decided name [] b all j h e = absurd (none-ne-some _ e)
decided name (g ∷ slots) b all zero h e =
    subst (λ (x : Handle). (listens name x ≡ true) ↔ IsNamed name x) (some-injective _ _ e)
      (listens-IsNamed name g b all.0)
decided name (g ∷ slots) b all (suc j) h e = decided name slots b all.1 j h e

-- `handle_find` returns the first slot in use whose event name is `name`, and -1 exactly if there is
-- none; names count up to their terminator, and up to 15 characters.
pub handle_find-IsFirstNamed :
    (name : Memory) (t : Table Handle)
    → IsBytes name
    → AllBytes t.slots
    → IsFirstNamed name t.slots (handle_find name t)
unfolding handle_find
handle_find-IsFirstNamed name t b all =
    find_from-IsFirst (IsNamed name) (listens name) t.slots (decided name t.slots b all)
