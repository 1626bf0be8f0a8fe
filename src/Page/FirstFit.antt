-- ===== src/Page/FirstFit.antt =====
-- The search of `page_alloc` with a step of one page: it ends, and finds the first run of `n` free
-- pages if there is one.
use nop.Base.{
  ℕ, zero, suc, ◌+◌, ◌<◌, ◌≤◌, ◌≡◌, refl, ◌⊎◌, inl, inr, arith, true, false, leb, Bool-cases, u32,
  sub32, Memory,
}
use mathlib.Core.Path.{subst}
use native.Mathlib.Decide.{dec_lt}
use nop.Page.{page_count, is_used, count_free, Outcome, found, exhausted, search_run}

-- `n` free pages from `s` on, within memory.
pub record IsFreeRun (bm : Memory) (n s : ℕ) : Type 0 where
  pub within : s + n ≤ page_count
  pub free : (q : ℕ) → s ≤ q → q < s + n → is_used bm q ≡ false

-- What the search may answer.
pub data IsFirstFit (bm : Memory) (n : ℕ) : Outcome → Type 0 where
  first :
      (s : ℕ)
      → IsFreeRun bm n s
      → ((t : ℕ) → t < s → ¬ (IsFreeRun bm n t))
      → IsFirstFit bm n (found s)
  nowhere : ((t : ℕ) → ¬ (IsFreeRun bm n t)) → IsFirstFit bm n exhausted

module _ (bm : Memory) where
  record IsCounted (left free_pages i : ℕ) (out : ℕ × ℕ) : Type 0 where
    moved : out.1 + free_pages ≡ i + out.0
    counted : free_pages ≤ out.0
    free : (q : ℕ) → i ≤ q → q < out.1 → is_used bm q ≡ false
    stop : (out.0 ≡ free_pages + left) ⊎ ((out.0 < free_pages + left) × (is_used bm out.1 ≡ true))

  count_free-IsCounted :
      (left free_pages i : ℕ)
      → i + left ≤ page_count
      → IsCounted left free_pages i (count_free bm left free_pages i)
  unfolding count_free
  count_free-IsCounted zero free_pages i h = record {
    moved = refl;
    counted = omega arith;
    free = λ q a b. absurd (omega arith);
    stop = inl (omega arith);
  }
  count_free-IsCounted (suc left) free_pages i h = elim (Bool-cases (is_used bm i)) [
    | inl used ↦
        rw (used, count_free)
          (record {
            moved = refl;
            counted = omega arith;
            free = λ q a b. absurd (omega arith);
            stop = inr (omega arith, used);
          })
    | inr free ↦
        let no_wrap : u32 (i + 1) ≡ i + 1 = omega arith in
        let rest = count_free-IsCounted left (free_pages + 1) (i + 1) (omega arith) in
        rw (free, count_free, no_wrap)
          (record {
            moved = omega (arith, rest.moved);
            counted = omega (arith, rest.counted);
            free = λ q a b. elim (dec_lt i q) [
              | yes later ↦ rest.free q (omega arith) b
              | no here ↦ subst (λ k. is_used bm k ≡ false) (omega arith) free
            ];
            stop = ground (arith, rest.stop);
          })
  ]

  module _ (n : ℕ) (fits : n ≤ page_count) where
    -- No run starts at a page from `i` on up to a used page less than `n` after `i`.
    blocked :
        (i used_page t : ℕ)
        → i ≤ t
        → t ≤ used_page
        → used_page < i + n
        → is_used bm used_page ≡ true
        → ¬ (IsFreeRun bm n t)
    blocked i used_page t a b c used run = cc (used, run.free used_page b (omega arith))

    pub search_run-IsFirstFit :
        (fuel i : ℕ)
        → 0 < fuel
        → page_count + 2 ≤ fuel + i + n
        → ((t : ℕ) → t < i → ¬ (IsFreeRun bm n t))
        → IsFirstFit bm n (search_run fuel bm n 1 i)
    unfolding search_run
    search_run-IsFirstFit zero i pos enough none_below = absurd (omega arith)
    search_run-IsFirstFit (suc fuel) i pos enough none_below =
        elim (Bool-cases (leb i (sub32 page_count n))) [
          | inr over ↦ rw over (nowhere λ t run. none_below t (ground (arith, run.within)) run)
          | inl inside ↦
              let room : i + n ≤ page_count = ground arith in
              let count = count_free-IsCounted n 0 i room in
              rw inside (elim (Bool-cases (leb n (count_free bm n 0 i).0)) [
                | inl enough_free ↦ rw enough_free (
                    first i
                      (record {
                        within = room;
                        free = λ q a b. count.free q a (ground (arith, count.moved));
                      })
                      none_below)
                | inr short ↦
                    let last = (count_free bm n 0 i).1 in
                    let short_of : (count_free bm n 0 i).0 < n = ground arith in
                    let near : last < i + n = omega (arith, count.moved) in
                    let no_wrap : u32 (last + 1) ≡ last + 1 = omega arith in
                    let used : is_used bm last ≡ true = ground (arith, count.stop) in
                    rw (short, no_wrap)
                      (search_run-IsFirstFit fuel (last + 1) (omega arith)
                        (omega (arith, count.moved))
                        λ t below. elim (dec_lt t i) [
                          | yes before ↦ none_below t before
                          | no inside ↦ blocked i last t (omega arith) (omega arith) near used
                        ])
              ])
        ]
