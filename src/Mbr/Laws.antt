-- ===== src/Mbr/Laws.antt =====
-- nop/tree/mbr.c: the tables that are accepted, described by themselves.
use nop.Base.{
  ℕ, ◌+◌, ◌≤◌, ◌<◌, ◌^◌, ◌≡◌, ◌≢◌, ◌⊎◌, inl, inr, ◌↔◌, refl, sym, ◌∙◌, arith, false, Bool-cases,
  Option, none, some, List, [], ◌∷◌, ◌++◌, map, ◌==◌, if◌then◌else◌, ltb, u64,
}
use mathlib.Core.Bool.{false≢true}
use nop.Mbr.{Entry, Partition, partition, overlaps, add_entry}

abbrev pub All : {A : Type 0} → (A → Type 0) → List A → Type 0
All P [] = Unit {0}
All P (x ∷ xs) = P x × All P xs

-- An entry by itself: start and count are both 0 or neither is, and a partition lies on the drive and
-- is no GPT protective one.
pub record IsGood (total : ℕ) (e : Entry) : Type 0 where
  pub both : (e.start ≡ 0) ↔ (e.count ≡ 0)
  pub inside : e.count ≢ 0 → e.start + e.count ≤ total
  pub kind : e.count ≢ 0 → e.kind ≢ 0xEE

-- No sector is in both.
abbrev pub Apart : Entry → Entry → Type 0
Apart e f =
    ((e.count ≡ 0) ⊎ (f.count ≡ 0))
    ⊎ ((f.start + f.count ≤ e.start) ⊎ (e.start + e.count ≤ f.start))

abbrev pub AllApart : List Entry → Type 0
AllApart [] = Unit {0}
AllApart (e ∷ entries) = All (Apart e) entries × AllApart entries

abbrev pub IsTable : ℕ → List Entry → Type 0
IsTable total entries = All (IsGood total) entries × AllApart entries

pub record FitsWord (e : Entry) : Type 0 where
  pub start : e.start < 2 ^ 32
  pub count : e.count < 2 ^ 32

abbrev pub used : List Entry → List Entry
used [] = []
used (e ∷ entries) = let rest = used entries in if e.count == 0 then rest else e ∷ rest

-- The loop over the earlier partitions finds out whether one shares a sector.
overlaps-Apart :
    (id : ℕ) (e : Entry) (before : List Entry)
    → FitsWord e
    → All FitsWord before
    → All (λ f. f.count ≢ 0) before
    → e.count ≢ 0
    → (overlaps (partition id e) (map (partition id) before) ≡ false) ↔ All (Apart e) before
unfolding overlaps partition
overlaps-Apart id e [] h hs us u = (λ x. tt, λ x. refl)
overlaps-Apart id e (f ∷ before) h hs us u =
    let ih = overlaps-Apart id e before h hs.1 us.1 u in
    ground (arith, ih, h.start, h.count, hs.0.start, hs.0.count, us.0)

-- What one round of the loop makes of an entry.
pub data IsRound (total id : ℕ) (e : Entry) (before : List Entry)
    : Option (List Partition) → Type 0 where
  skip : e.count ≡ 0 → e.start ≡ 0 → IsRound total id e before (some (map (partition id) before))
  take :
      e.count ≢ 0
      → IsGood total e
      → All (Apart e) before
      → IsRound total id e before (some (map (partition id) before ++ partition id e ∷ []))
  stop : ¬ (IsGood total e × All (Apart e) before) → IsRound total id e before none

pub add_entry-IsRound :
    (total id : ℕ) (e : Entry) (before : List Entry)
    → FitsWord e
    → All FitsWord before
    → All (λ f. f.count ≢ 0) before
    → IsRound total id e before (add_entry total id e (map (partition id) before))
unfolding add_entry
add_entry-IsRound total id e before h hs us =
    let range : u64 (e.start + e.count) ≡ e.start + e.count = omega (arith, h.start, h.count) in
    rw range (elim (Bool-cases (e.count == 0)) [
      | inl c ↦ elim (Bool-cases (e.start == 0)) [
        | inl s ↦ rw (c, s) (skip (ground arith) (ground arith))
        | inr s ↦ rw (c, s) (stop (λ b. ground (arith, b.0.both)))
      ]
      | inr c ↦ elim (Bool-cases (e.start == 0)) [
        | inl s ↦ rw (c, s) (stop (λ b. ground (arith, b.0.both)))
        | inr s ↦ elim (Bool-cases (ltb total (e.start + e.count))) [
          | inl o ↦ rw (c, s, o) (stop (λ b. ground (arith, b.0.inside)))
          | inr o ↦ elim (Bool-cases (e.kind == 0xEE)) [
            | inl k ↦ rw (c, s, o, k) (stop (λ b. ground (arith, b.0.kind)))
            | inr k ↦ elim (Bool-cases (overlaps (partition id e) (map (partition id) before))) [
              | inl l ↦
                  rw (c, s, o, k, l)
                    (stop (λ b.
                      false≢true
                        (sym ((overlaps-Apart id e before h hs us (ground arith)).1 b.1) ∙ l)))
              | inr l ↦
                  rw (c, s, o, k, l)
                    (take (ground arith)
                      (record {
                        both = ground arith;
                        inside = λ u. ground arith;
                        kind = λ u. ground arith;
                      })
                      ((overlaps-Apart id e before h hs us (ground arith)).0 l))
            ]
          ]
        ]
      ]
    ])
