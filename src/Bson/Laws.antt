-- ===== src/Bson/Laws.antt =====
-- lib/bson.c: bson_find_entry finds the first entry with a name that begins the one asked for.
use nop.Base.{
  ℕ, zero, suc, ◌+◌, ◌^◌, ◌<◌, ◌≤◌, ◌≡◌, ◌≢◌, refl, ap, sym, ◌∙◌, arith, true, false, inl, inr,
  Bool-cases, Option, none, some, List, [], ◌∷◌, ◌==◌, u32, sub32, Memory, IsBytes,
}
use mathlib.Core.Bool.{true≢false}
use nop.Base.Int.{ℤ, pos, negsuc, is_zero}
use nop.CString.{strlen, strcmp}
use nop.CString.Length.{IsString, strlen_lem}
use nop.CString.Compare.{SameBytes, strcmp_prefix}
use nop.Bson.{less_signed, load_size, skip_value, next_entry, find_loop, bson_find_entry}

-- The values of BSON that the code knows: the type, and the number of bytes at `at`.
pub data HasValue (mem : Memory) (at : ℕ) : ℕ → ℕ → Type 0 where
  double : HasValue mem at 0x01 8
  text : (n : ℕ) → load_size mem at ≡ n → HasValue mem at 0x02 (n + 4)
  document : (n : ℕ) → load_size mem at ≡ n → HasValue mem at 0x03 n
  array : (n : ℕ) → load_size mem at ≡ n → HasValue mem at 0x04 n
  binary : (n : ℕ) → load_size mem at ≡ n → HasValue mem at 0x05 (n + 5)
  boolean : HasValue mem at 0x08 1
  time : HasValue mem at 0x09 8
  null : HasValue mem at 0x0A 0
  int : HasValue mem at 0x10 4
  timestamp : HasValue mem at 0x11 8
  long : HasValue mem at 0x12 8
  decimal : HasValue mem at 0x13 16
  max_key : HasValue mem at 0x7F 0
  min_key : HasValue mem at 0xFF 0

-- From `doc` up to `end` stand entries, at these addresses, with names of these lengths; a 0 may end them.
pub data HasEntries (mem : Memory) (end : ℕ) : ℕ → List (ℕ × ℕ) → Type 0 where
  over : (doc : ℕ) → doc ≡ end → HasEntries mem end doc []
  last : (doc : ℕ) → doc < end → mem doc ≡ 0 → HasEntries mem end doc []
  entry :
      (doc type length size : ℕ) {es : List (ℕ × ℕ)}
      → mem doc ≡ type
      → type ≢ 0
      → IsString mem (doc + 1) length
      → HasValue mem (doc + (length + 2)) type size
      → doc + (length + 2) + size ≤ end
      → HasEntries mem end (doc + (length + 2) + size) es
      → HasEntries mem end doc ((doc, length) ∷ es)

-- The first of the entries whose name begins the string at `name`, or NULL if there is none.
pub data IsFirstNamed (mem : Memory) (name : ℕ) : List (ℕ × ℕ) → Option ℕ → Type 0 where
  nowhere : IsFirstNamed mem name [] none
  here :
      (doc length : ℕ) (es : List (ℕ × ℕ))
      → SameBytes mem (doc + 1) mem name length
      → IsFirstNamed mem name ((doc, length) ∷ es) (some doc)
  later :
      (doc length : ℕ) (es : List (ℕ × ℕ)) {o : Option ℕ}
      → ¬ (SameBytes mem (doc + 1) mem name length)
      → IsFirstNamed mem name es o
      → IsFirstNamed mem name ((doc, length) ∷ es) o

skip_value-HasValue :
    (mem : Memory) (at type size : ℕ)
    → HasValue mem at type size
    → at + size < 2 ^ 32
    → skip_value mem type at ≡ at + size
unfolding skip_value
skip_value-HasValue mem at _ _ double lt = omega arith
skip_value-HasValue mem at _ _ (text n e) lt = omega (arith, e)
skip_value-HasValue mem at _ _ (document n e) lt = omega (arith, e)
skip_value-HasValue mem at _ _ (array n e) lt = omega (arith, e)
skip_value-HasValue mem at _ _ (binary n e) lt = omega (arith, e)
skip_value-HasValue mem at _ _ boolean lt = omega arith
skip_value-HasValue mem at _ _ time lt = omega arith
skip_value-HasValue mem at _ _ null lt = omega arith
skip_value-HasValue mem at _ _ int lt = omega arith
skip_value-HasValue mem at _ _ timestamp lt = omega arith
skip_value-HasValue mem at _ _ long lt = omega arith
skip_value-HasValue mem at _ _ decimal lt = omega arith
skip_value-HasValue mem at _ _ max_key lt = omega arith
skip_value-HasValue mem at _ _ min_key lt = omega arith

-- The type and the name behind it are a string.
entry-IsString :
    (mem : Memory) (doc length : ℕ)
    → mem doc ≢ 0
    → IsString mem (doc + 1) length
    → IsString mem doc (length + 1)
entry-IsString mem doc length ne s = record {
  nonzero = elim [
    | zero ↦ λ lt e. ne (ap mem (omega arith) ∙ e)
    | suc i ↦ λ lt e. s.nonzero i (omega arith) (ap mem (omega arith) ∙ e)
  ];
  terminated = ap mem (omega arith) ∙ s.terminated;
}

next_entry_lem :
    (mem : Memory) (doc type length size end : ℕ)
    → mem doc ≡ type
    → type ≢ 0
    → IsString mem (doc + 1) length
    → HasValue mem (doc + (length + 2)) type size
    → doc + (length + 2) + size ≤ end
    → end < 2 ^ 32
    → next_entry mem doc ≡ doc + (length + 2) + size
unfolding next_entry
next_entry_lem mem doc type length size end e ne s v le lt =
    let text_length : strlen mem doc ≡ length + 1 =
      strlen_lem mem doc (length + 1) (entry-IsString mem doc length (λ z. ne (sym e ∙ z)) s)
        (omega arith) in
    let at : u32 (doc + (strlen mem doc + 1)) ≡ doc + (length + 2) = omega (arith, text_length) in
    rw (e, at) (skip_value-HasValue mem (doc + (length + 2)) type size v (omega arith))

nonzero_test : (z : ℤ) → is_zero z ≡ false → z ≢ pos 0
nonzero_test (pos n) h e = true≢false (ap is_zero (sym e) ∙ h)
nonzero_test (negsuc n) h e = true≢false (ap is_zero (sym e) ∙ h)

zero_test : (z : ℤ) → is_zero z ≡ true → z ≡ pos 0
zero_test (pos n) h = ap pos (ground arith)
zero_test (negsuc n) h = absurd (true≢false (sym h))

HasEntries-bound :
    {mem : Memory} {end doc : ℕ} {es : List (ℕ × ℕ)} → HasEntries mem end doc es → doc ≤ end
HasEntries-bound (over _ e) = omega arith
HasEntries-bound (last _ lt z) = omega arith
HasEntries-bound (entry doc type length size e ne s v le rest) = omega arith

module _ (mem : Memory) (bytes : IsBytes mem) (name start size : ℕ) (size_small : size < 2 ^ 31)
    (small : start + size < 2 ^ 32) where
  abbrev loop : ℕ → ℕ → Option (Option ℕ)
  loop fuel doc = find_loop fuel mem name start size doc

  loop-IsFirstNamed :
      (fuel doc : ℕ) (es : List (ℕ × ℕ))
      → start ≤ doc
      → start + size < doc + fuel
      → HasEntries mem (start + size) doc es
      → (o : Option ℕ) × (loop fuel doc ≡ some o) × IsFirstNamed mem name es o
  unfolding find_loop
  loop-IsFirstNamed zero doc _ le enough (over _ e) = absurd (omega arith)
  loop-IsFirstNamed zero doc _ le enough (last _ lt z) = absurd (omega arith)
  loop-IsFirstNamed zero doc _ le enough (entry _ type length k e ne s v fits rest) =
      absurd (omega arith)
  loop-IsFirstNamed (suc fuel) doc _ le enough (over _ e) =
      let test : less_signed (sub32 doc start) size ≡ false = unfold less_signed in ground arith in
      (none, rw (test, find_loop) refl, nowhere)
  loop-IsFirstNamed (suc fuel) doc _ le enough (last _ lt z) =
      let test : less_signed (sub32 doc start) size ≡ true = unfold less_signed in ground arith in
      let stop : (mem doc == 0) ≡ true = ground (arith, z) in
      (none, rw (test, stop, find_loop) refl, nowhere)
  loop-IsFirstNamed (suc fuel) doc _ le enough (entry _ type length k {es} e ne s v fits rest) =
      let test : less_signed (sub32 doc start) size ≡ true = unfold less_signed in ground arith in
      let more : (mem doc == 0) ≡ false = ground (arith, e) in
      let same = strcmp_prefix mem mem bytes bytes (doc + 1) name length s (omega arith) in
      elim (Bool-cases (is_zero (strcmp mem (doc + 1) mem name))) [
        | inl hit ↦ (
          some doc,
          rw (test, more, hit, find_loop) refl,
          here doc length es (same.0 (zero_test (strcmp mem (doc + 1) mem name) hit)),
        )
        | inr miss ↦
            let (o, found, first) =
              loop-IsFirstNamed fuel (doc + (length + 2) + k) es (omega arith) (omega arith) rest in
            let next = next_entry_lem mem doc type length k (start + size) e ne s v fits small in
            (
              o,
              rw (test, more, miss, find_loop, next) found,
              later doc length es
                  (λ h. nonzero_test (strcmp mem (doc + 1) mem name) miss (same.1 h)) first,
            )
      ]

-- If the size of a document holds its entries, of types that the code knows, bson_find_entry ends, and
-- returns the address of the first entry whose name begins the name asked for, or NULL if there is none.
pub bson_find_entry-IsFirstNamed :
    (mem : Memory) (doc name : ℕ) (es : List (ℕ × ℕ))
    → IsBytes mem
    → load_size mem doc < 2 ^ 31
    → doc + load_size mem doc < 2 ^ 32
    → HasEntries mem (doc + load_size mem doc) (doc + 4) es
    → (o : Option ℕ) × (bson_find_entry mem doc name ≡ some o) × IsFirstNamed mem name es o
unfolding bson_find_entry
bson_find_entry-IsFirstNamed mem doc name es bytes size_small small h =
    let size = load_size mem doc in
    let begin : u32 (doc + 4) ≡ doc + 4 = omega (arith, HasEntries-bound h) in
    rw begin (
      loop-IsFirstNamed mem bytes name doc size size_small small (size + 1) (doc + 4) es
        (omega arith) (omega arith) h)
