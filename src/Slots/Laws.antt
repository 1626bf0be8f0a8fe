-- ===== src/Slots/Laws.antt =====
-- The slot table keeps its count, always has room after growing by free slots, and never hands out
-- a slot in use.
use mathlib.Core.Path.{subst}
use mathlib.Core.Option.{some-injective, none-ne-some}
use mathlib.Core.List.{map-append}
use nop.Base.{
  ℕ, ◌+◌, ◌-◌, ◌<◌, ◌≡◌, refl, arith, Bool, true, false, Option, none, some, List, map, leb, length,
  get_elem?, set, ap, sym, ◌∙◌, Option-cases, Bool-cases, inl, inr, length-map, length-set,
  length-append,
}
use nop.Slots.{Table, first_free, grow, insert, remove}
use nop.Slots.Flags.{
  count_used, count_used-le, count_used-append, count_used-take_slot, count_used-free_slot,
  IsFirstFree, first, full, first_free-IsFirstFree,
}

module _ {A : Type 0} (is_free : A → Bool) where
  abbrev pub flags : Table A → List Bool
  flags t = map is_free t.slots

  pub record IsValid (t : Table A) : Type 0 where
    pub size : length t.slots ≡ t.total
    pub counted : t.used ≡ count_used (flags t)

  -- A change of slot `i` that leaves its flag at `b` and every other flag alone.
  abbrev pub Marks : Bool → (ℕ → List A → List A) → Type 0
  Marks b change =
      (i : ℕ) (slots : List A) → map is_free (change i slots) ≡ set (map is_free slots) i b

  length-change :
      (b : Bool) (change : ℕ → List A → List A) (i : ℕ) (slots : List A)
      → Marks b change
      → length (change i slots) ≡ length slots
  length-change b change i slots marks =
      sym (length-map (change i slots) is_free)
      ∙ ap length (marks i slots)
      ∙ length-set (map is_free slots) i b
      ∙ length-map slots is_free

  pub grow-IsValid :
      (step : ℕ) (fresh : List A) {t : Table A}
      → length fresh ≡ step
      → count_used (map is_free fresh) ≡ 0
      → IsValid t
      → IsValid (grow step fresh t)
  unfolding grow
  grow-IsValid step fresh {t} fits empty v = elim (Bool-cases (leb t.total t.used)) [
    | inr room ↦ rw room v
    | inl more ↦ rw more (record {
      size = omega (arith, length-append t.slots fresh, v.size);
      counted =
          v.counted
          ∙ sym (
              ap count_used (map-append is_free t.slots fresh)
              ∙ count_used-append (flags t) (map is_free fresh)
              ∙ omega (arith, empty));
    })
  ]

  -- What `insert` does: it fills the first free slot, or there is none.
  pub data IsInserted (place : ℕ → List A → List A) (t : Table A)
      : Table A × Option ℕ → Type 0 where
    inserted :
        (i : ℕ)
        → get_elem? (flags t) i ≡ some true
        → ((j : ℕ) → j < i → get_elem? (flags t) j ≡ some false)
        → IsInserted place t (record t { slots = place i t.slots; used = t.used + 1 }, some i)
    no_room : count_used (flags t) ≡ length (flags t) → IsInserted place t (t, none)

  insert_of :
      (place : ℕ → List A → List A) (t : Table A) {o : Option ℕ}
      → IsFirstFree (flags t) o
      → first_free (flags t) ≡ o
      → IsInserted place t (insert is_free place t)
  unfolding insert
  insert_of place t (first i h before) e = rw (e, insert) (inserted i h before)
  insert_of place t (full h) e = rw (e, insert) (no_room h)

  pub insert-IsInserted :
      (place : ℕ → List A → List A) (t : Table A) → IsInserted place t (insert is_free place t)
  insert-IsInserted place t = insert_of place t (first_free-IsFirstFree (flags t)) refl

  inserted-IsValid :
      {place : ℕ → List A → List A} {t : Table A} {out : Table A × Option ℕ}
      → Marks false place
      → IsValid t
      → IsInserted place t out
      → IsValid out.0
  inserted-IsValid {place} {t} marks v (inserted i h before) = record {
    size = length-change false place i t.slots marks ∙ v.size;
    counted =
        ap (λ (n : ℕ). n + 1) v.counted
        ∙ sym (ap count_used (marks i t.slots) ∙ count_used-take_slot (flags t) i h);
  }
  inserted-IsValid marks v (no_room h) = v

  pub insert-IsValid :
      (place : ℕ → List A → List A) {t : Table A}
      → Marks false place
      → IsValid t
      → IsValid (insert is_free place t).0
  insert-IsValid place {t} marks v = inserted-IsValid marks v (insert-IsInserted place t)

  -- What `remove` does: a slot in use is released and no longer counted, a free one is left alone.
  pub data IsRemoved (release : ℕ → List A → List A) (id : ℕ) (t : Table A)
      : Option (Table A) → Type 0 where
    out_of_range : get_elem? (flags t) id ≡ none → IsRemoved release id t none
    already : get_elem? (flags t) id ≡ some true → IsRemoved release id t (some t)
    released :
        get_elem? (flags t) id ≡ some false
        → IsRemoved release id t (some (record t { slots = release id t.slots; used = t.used - 1 }))

  pub remove-IsRemoved :
      (release : ℕ → List A → List A) (id : ℕ) (t : Table A)
      → IsRemoved release id t (remove is_free release id t)
  unfolding remove
  remove-IsRemoved release id t = elim (Option-cases (get_elem? (flags t) id)) [
    | inl e ↦ rw (e, remove) (out_of_range e)
    | inr (b, e) ↦ by_flag b e
  ]
    where
      by_flag :
          (b : Bool)
          → get_elem? (flags t) id ≡ some b
          → IsRemoved release id t (remove is_free release id t)
      by_flag true e = rw (e, remove) (already e)
      by_flag false e = rw (e, remove) (released e)

  removed-IsValid :
      {release : ℕ → List A → List A} {id : ℕ} {t t' : Table A} {o : Option (Table A)}
      → Marks true release
      → IsValid t
      → IsRemoved release id t o
      → o ≡ some t'
      → IsValid t'
  removed-IsValid marks v (out_of_range h) e = absurd (none-ne-some _ e)
  removed-IsValid marks v (already h) e = subst IsValid (some-injective _ _ e) v
  removed-IsValid {release} {id} {t} marks v (released h) e =
      subst IsValid (some-injective _ _ e) (record {
        size = length-change true release id t.slots marks ∙ v.size;
        counted = omega (
          arith,
          v.counted,
          count_used-free_slot (flags t) id h,
          ap count_used (marks id t.slots),
        );
      })

  pub remove-IsValid :
      (release : ℕ → List A → List A) (id : ℕ) {t t' : Table A}
      → Marks true release
      → IsValid t
      → remove is_free release id t ≡ some t'
      → IsValid t'
  remove-IsValid release id {t} marks v e =
      removed-IsValid marks v (remove-IsRemoved release id t) e

  -- After growing there is always room, if the new slots are free.
  pub grow-has_room :
      (step : ℕ) (fresh : List A) (t : Table A)
      → 0 < step
      → length fresh ≡ step
      → count_used (map is_free fresh) ≡ 0
      → IsValid t
      → count_used (flags (grow step fresh t)) < length (flags (grow step fresh t))
  unfolding grow
  grow-has_room step fresh t pos fits empty v = elim (Bool-cases (leb t.total t.used)) [
    | inr room ↦ rw room (
        let short : t.used < t.total = ground arith in
        omega (arith, v.counted, v.size, length-map t.slots is_free))
    | inl more ↦
        rw (more, map-append is_free t.slots fresh)
          (omega (
            arith,
            count_used-append (flags t) (map is_free fresh),
            count_used-le (flags t),
            length-append (flags t) (map is_free fresh),
            length-map fresh is_free,
          ))
  ]

  some_slot :
      {place : ℕ → List A → List A} {t : Table A} {out : Table A × Option ℕ}
      → IsInserted place t out
      → count_used (flags t) < length (flags t)
      → (i : ℕ) × (out.1 ≡ some i) × (get_elem? (flags t) i ≡ some true)
  some_slot (inserted i h before) room = (i, refl, h)
  some_slot (no_room h) room = absurd (omega arith)

  -- So the insertion succeeds, in a slot that was not in use.
  pub insert-grow :
      (place : ℕ → List A → List A) (step : ℕ) (fresh : List A) (t : Table A)
      → 0 < step
      → length fresh ≡ step
      → count_used (map is_free fresh) ≡ 0
      → IsValid t
      → (i : ℕ) × ((insert is_free place (grow step fresh t)).1 ≡ some i)
        × (get_elem? (flags (grow step fresh t)) i ≡ some true)
  insert-grow place step fresh t pos fits empty v =
      some_slot (insert-IsInserted place (grow step fresh t))
        (grow-has_room step fresh t pos fits empty v)
