-- ===== src/Slots/Find.antt =====
-- A search of the slots of nop/event.c or nop/device.c answers the first that it is for.
use mathlib.Core.Path.{subst}
use mathlib.Core.Bool.{false≢true}
use mathlib.Core.Option.{some-injective, none-ne-some}
use nop.Base.{
  ℕ, zero, suc, ◌+◌, ◌<◌, ◌≡◌, ◌↔◌, refl, arith, Bool, true, Option, none, some, List, [], ◌∷◌,
  get_elem?, ap, sym, ◌∙◌, Bool-cases, inl, inr,
}
use nop.Slots.{find_from}

module _ {A : Type 0} (P : A → Type 0) where
  pub data IsFirst (slots : List A) : Option ℕ → Type 0 where
    at :
        (i : ℕ) {x : A}
        → get_elem? slots i ≡ some x
        → P x
        → ((j : ℕ) (y : A) → j < i → get_elem? slots j ≡ some y → ¬ (P y))
        → IsFirst slots (some i)
    nowhere : ((j : ℕ) (y : A) → get_elem? slots j ≡ some y → ¬ (P y)) → IsFirst slots none

  abbrev shift : Option ℕ → Option ℕ
  shift none = none
  shift (some i) = some (suc i)

  IsFirst-suc :
      {x : A} {slots : List A} {o : Option ℕ}
      → ¬ (P x)
      → IsFirst slots o
      → IsFirst (x ∷ slots) (shift o)
  IsFirst-suc {x} {slots} other (at i e n before) = at (suc i) e n earlier
    where
      earlier : (j : ℕ) (y : A) → j < suc i → get_elem? (x ∷ slots) j ≡ some y → ¬ (P y)
      earlier zero y lt e' n' = other (subst P (sym (some-injective _ _ e')) n')
      earlier (suc j) y lt e' n' = before j y (omega arith) e' n'
  IsFirst-suc {x} {slots} other (nowhere none_such) = nowhere all_other
    where
      all_other : (j : ℕ) (y : A) → get_elem? (x ∷ slots) j ≡ some y → ¬ (P y)
      all_other zero y e' n' = other (subst P (sym (some-injective _ _ e')) n')
      all_other (suc j) y e' n' = none_such j y e' n'

  module _ (test : A → Bool) where
    find_from-suc :
        (i : ℕ) (slots : List A) → find_from test (i + 1) slots ≡ shift (find_from test i slots)
    unfolding find_from
    find_from-suc i [] = refl
    find_from-suc i (x ∷ slots) = elim (Bool-cases (test x)) [
      | inl hit ↦ rw hit (ap some (omega arith))
      | inr miss ↦ rw miss (find_from-suc (i + 1) slots)
    ]

    -- Each slot's test decides the property.
    abbrev pub Decided : List A → Type 0
    Decided slots = (j : ℕ) (y : A) → get_elem? slots j ≡ some y → (test y ≡ true) ↔ P y

    pub find_from-IsFirst :
        (slots : List A) → Decided slots → IsFirst slots (find_from test 0 slots)
    unfolding find_from
    find_from-IsFirst [] d = nowhere (λ j y e. absurd (none-ne-some _ e))
    find_from-IsFirst (x ∷ slots) d = elim (Bool-cases (test x)) [
      | inl hit ↦ rw hit (at 0 refl ((d 0 x refl).0 hit) (λ j y lt. elim lt [ ]))
      | inr miss ↦ rw miss (
          subst (IsFirst (x ∷ slots)) (sym (find_from-suc 0 slots)) (
            IsFirst-suc (λ n. false≢true (sym miss ∙ (d 0 x refl).1 n))
              (find_from-IsFirst slots (λ j y e. d (suc j) y e))))
    ]
