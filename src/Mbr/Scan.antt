-- ===== src/Mbr/Scan.antt =====
-- nop/tree/mbr.c: the loop over the four entries accepts exactly the valid tables.
use mathlib.Core.List.{cons-ne-nil, map-append, append-nil, append_assoc}
use mathlib.Core.Path.{subst}
use nop.Base.{
  ℕ, ◌≡◌, ◌≢◌, inl, inr, ◌↔◌, refl, sym, ap, ◌∙◌, arith, true, Bool-cases, Option, none, some, List,
  [], ◌∷◌, ◌++◌, map, ◌==◌,
}
use nop.Base.{◌/◌, ◌^◌, zero, suc, ◌-◌, ◌≤◌, length, replicate}
use nop.Base.Int.{ℤ, pos, negsuc}
use nop.Api.{Feature, SeekMode, seek_set, seek_end}
use nop.Mbr.{Entry, Partition, partition, add_entries, fill, finish, mounts, mbr_init}
use nop.Mbr.Laws.{
  All, IsGood, Apart, AllApart, IsTable, FitsWord, used, IsRound, skip, take, stop,
  add_entry-IsRound,
}

-- What an entry has to satisfy behind the accepted ones.
abbrev Fits : ℕ → List Entry → Entry → Type 0
Fits total before e = IsGood total e × All (Apart e) before

-- The entries that are still to come, behind the accepted ones.
abbrev Rest : ℕ → List Entry → List Entry → Type 0
Rest total before entries = All (Fits total before) entries × AllApart entries

All-append :
    (P : Entry → Type 0) (xs : List Entry) (y : Entry) → All P (xs ++ y ∷ []) ↔ (All P xs × P y)
All-append P [] y = (λ h. (tt, h.0), λ h. (h.1, tt))
All-append P (x ∷ xs) y =
    let ih = All-append P xs y in
    (λ h. ((h.0, (ih.0 h.1).0), (ih.0 h.1).1), λ h. (h.0.0, ih.1 (h.0.1, h.1)))

Apart-sym : (e f : Entry) → Apart e f → Apart f e
Apart-sym e f h = ground arith

All-unused : (e : Entry) (xs : List Entry) → e.count ≡ 0 → All (Apart e) xs
All-unused e [] z = tt
All-unused e (x ∷ xs) z = (inl (inl z), All-unused e xs z)

All-Fits-append :
    (total : ℕ) (before : List Entry) (e : Entry) (xs : List Entry)
    → All (Fits total (before ++ e ∷ [])) xs ↔ (All (Fits total before) xs × All (Apart e) xs)
All-Fits-append total before e [] = (λ h. (tt, tt), λ h. tt)
All-Fits-append total before e (x ∷ xs) =
    let ih = All-Fits-append total before e xs in
    let split = All-append (Apart x) before e in
    (
      λ h.
          let (clear, apart) = split.0 h.0.1 in
          (((h.0.0, clear), (ih.0 h.1).0), (Apart-sym x e apart, (ih.0 h.1).1)),
      λ h. ((h.0.0.0, split.1 (h.0.0.1, Apart-sym e x h.1.0)), ih.1 (h.0.1, h.1.1)),
    )

data IsScan (total id : ℕ) (before entries : List Entry) : Option (List Partition) → Type 0 where
  accepted :
      Rest total before entries
      → IsScan total id before entries (some (map (partition id) (before ++ used entries)))
  rejected : ¬ (Rest total before entries) → IsScan total id before entries none

used-unused : (e : Entry) (entries : List Entry) → e.count ≡ 0 → used (e ∷ entries) ≡ used entries
used-unused e entries z = rw z refl

used-taken :
    (e : Entry) (entries : List Entry) → e.count ≢ 0 → used (e ∷ entries) ≡ e ∷ used entries
used-taken e entries u = elim (Bool-cases (e.count == 0)) [
  | inl c ↦ absurd (u (ground arith))
  | inr c ↦ rw c refl
]

IsScan-skip :
    {total id : ℕ} {e : Entry} {before entries : List Entry} {o : Option (List Partition)}
    → e.count ≡ 0
    → e.start ≡ 0
    → IsScan total id before entries o
    → IsScan total id before (e ∷ entries) o
IsScan-skip {total} {id} {e} {before} {entries} z s (accepted r) =
    let good : IsGood total e = record {
      both = (λ h. z, λ h. s);
      inside = λ u. absurd (u z);
      kind = λ u. absurd (u z);
    } in
    subst (IsScan total id before (e ∷ entries))
      (ap (λ es. some (map (partition id) (before ++ es))) (used-unused e entries z))
      (accepted (((good, All-unused e before z), r.0), (All-unused e entries z, r.1)))
IsScan-skip {total} {id} {e} {before} {entries} z s (rejected n) = rejected (λ r. n (r.0.1, r.1.1))

IsScan-take :
    {total id : ℕ} {e : Entry} {before entries : List Entry} {o : Option (List Partition)}
    → e.count ≢ 0
    → Fits total before e
    → IsScan total id (before ++ e ∷ []) entries o
    → IsScan total id before (e ∷ entries) o
IsScan-take {total} {id} {e} {before} {entries} u fits (accepted r) =
    let (rest, apart) = (All-Fits-append total before e entries).0 r.0 in
    subst (IsScan total id before (e ∷ entries))
      (ap (λ es. some (map (partition id) es))
        (ap (λ es. before ++ es) (used-taken e entries u)
          ∙ sym (append_assoc before (e ∷ []) (used entries))))
      (accepted ((fits, rest), (apart, r.1)))
IsScan-take {total} {id} {e} {before} {entries} u fits (rejected n) =
    rejected (λ r. n ((All-Fits-append total before e entries).1 (r.0.1, r.1.0), r.1.1))

-- A round, and then the rest of the loop from wherever the round leads.
IsScan-round :
    (total id : ℕ) (e : Entry) (entries before : List Entry) {o : Option (List Partition)}
    → ((more : List Entry)
        → All (λ f. FitsWord f × (f.count ≢ 0)) more
        → IsScan total id more entries (add_entries total id entries (map (partition id) more)))
    → FitsWord e
    → All (λ f. FitsWord f × (f.count ≢ 0)) before
    → IsRound total id e before o
    → IsScan total id before
        (e ∷ entries)
        (elim o [ none ↦ none | some mbr ↦ add_entries total id entries mbr ])
IsScan-round total id e entries before ih h fs (skip z s) = IsScan-skip z s (ih before fs)
IsScan-round total id e entries before ih h fs (take u good clear) =
    IsScan-take u (good, clear)
      (subst (λ mbr. IsScan total id (before ++ e ∷ []) entries (add_entries total id entries mbr))
        (map-append (partition id) before (e ∷ []))
        (ih (before ++ e ∷ [])
          ((All-append (λ f. FitsWord f × (f.count ≢ 0)) before e).1 (fs, (h, u)))))
IsScan-round total id e entries before ih h fs (stop n) = rejected (λ r. n r.0.0)

All-both :
    (before : List Entry)
    → All (λ f. FitsWord f × (f.count ≢ 0)) before
    → All FitsWord before × All (λ f. f.count ≢ 0) before
All-both [] fs = (tt, tt)
All-both (f ∷ before) fs = let (hs, us) = All-both before fs.1 in ((fs.0.0, hs), (fs.0.1, us))

add_entries-IsScan :
    (total id : ℕ) (entries before : List Entry)
    → All FitsWord entries
    → All (λ f. FitsWord f × (f.count ≢ 0)) before
    → IsScan total id before entries (add_entries total id entries (map (partition id) before))
unfolding add_entries
add_entries-IsScan total id [] before hs fs =
    subst (λ es. IsScan total id before [] (some (map (partition id) es))) (append-nil before)
      (accepted (tt, tt))
add_entries-IsScan total id (e ∷ entries) before hs fs =
    let (words, nonzero) = All-both before fs in
    IsScan-round total id e entries before (λ more. add_entries-IsScan total id entries more hs.1)
      hs.0 fs (add_entry-IsRound total id e before hs.0 words nonzero)

Rest-IsTable : (total : ℕ) (entries : List Entry) → Rest total [] entries ↔ IsTable total entries
Rest-IsTable total [] = (λ r. r, λ r. r)
Rest-IsTable total (e ∷ entries) =
    let ih = Rest-IsTable total entries in
    (
      λ r. let t = ih.0 (r.0.1, r.1.1) in ((r.0.0.0, t.0), r.1),
      λ t. let r = ih.1 (t.0.1, t.1.1) in (((t.0.0, tt), r.0), t.1),
    )

-- The partition of an entry, and what marks that there is none.
abbrev pub partition_of : ℕ → Entry → Partition
partition_of id e = record {
  id = pos id;
  offset = 0;
  start = e.start;
  count = e.count;
  kind = e.kind;
}

abbrev pub absent : Partition → Partition
absent junk = record junk { id = negsuc 0 }

partition-partition_of :
    (id : ℕ) (es : List Entry) → map (partition id) es ≡ map (partition_of id) es
unfolding partition
partition-partition_of id es = refl

fill_nothing : (junk : Partition) (n : ℕ) → fill junk n [] ≡ replicate n (absent junk)
unfolding fill
fill_nothing junk zero = refl
fill_nothing junk (suc n) = ap (λ ps. absent junk ∷ ps) (fill_nothing junk n)

fill_lem :
    (junk : Partition) (n : ℕ) (ps : List Partition)
    → length ps ≤ n
    → fill junk n ps ≡ ps ++ replicate (n - length ps) (absent junk)
unfolding fill
fill_lem junk zero [] le = refl
fill_lem junk zero (p ∷ ps) le = absurd (omega arith)
fill_lem junk (suc n) [] le =
    ap (λ ps. absent junk ∷ ps) (fill_nothing junk n)
    ∙ ap (λ (k : ℕ). replicate k (absent junk)) all
  where
    all : suc n ≡ suc n - 0
    all = omega arith
fill_lem junk (suc n) (p ∷ ps) le =
    let rest : n - length ps ≡ suc n - suc (length ps) = omega arith in
    ap (λ qs. p ∷ qs)
      (fill_lem junk n ps (omega arith)
        ∙ ap (λ (k : ℕ). ps ++ replicate k (absent junk)) (omega arith))

length-map : (id : ℕ) (es : List Entry) → length (map (partition_of id) es) ≡ length es
length-map id [] = refl
length-map id (e ∷ es) = ap suc (length-map id es)

length-used : (es : List Entry) → length (used es) ≤ length es
length-used [] = omega arith
length-used (e ∷ es) = ground (arith, length-used es)

-- What is mounted for a table: its partitions in order, and entries that are absent up to four, if the
-- table is valid and has a partition.
pub data IsMounted (total id : ℕ) (junk : Partition) (entries : List Entry)
    : Option (List Partition) → Type 0 where
  valid :
      IsTable total entries
      → used entries ≢ []
      → IsMounted total id junk entries (
          some (
            map (partition_of id) (used entries)
            ++ replicate (4 - length (used entries)) (absent junk)))
  invalid : ¬ (IsTable total entries × (used entries ≢ [])) → IsMounted total id junk entries none

filled :
    (junk : Partition) (id : ℕ) (es : List Entry)
    → length es ≤ 4
    → fill junk 4 (map (partition id) es)
      ≡ map (partition_of id) es ++ replicate (4 - length es) (absent junk)
filled junk id es le =
    let size = length-map id es in
    ap (fill junk 4) (partition-partition_of id es)
    ∙ fill_lem junk 4 (map (partition_of id) es) (omega (arith, size))
    ∙ ap (λ (k : ℕ). map (partition_of id) es ++ replicate (4 - k) (absent junk)) size

finish-IsMounted :
    (total id : ℕ) (junk : Partition) (entries : List Entry) {o : Option (List Partition)}
    → length entries ≡ 4
    → IsScan total id [] entries o
    → IsMounted total id junk entries (finish junk o)
unfolding finish
finish-IsMounted total id junk entries four (rejected n) =
    invalid (λ t. n ((Rest-IsTable total entries).1 t.0))
finish-IsMounted total id junk entries four (accepted r) = go (used entries) refl
  where
    go :
        (us : List Entry)
        → used entries ≡ us
        → IsMounted total id junk entries (finish junk (some (map (partition id) us)))
    go [] e = invalid (λ t. t.1 e)
    go (u ∷ us) e =
        subst (λ xs. IsMounted total id junk entries (some (fill junk 4 (map (partition id) xs)))) e
          (subst (λ ps. IsMounted total id junk entries (some ps))
            (sym (filled junk id (used entries) (omega (arith, four, length-used entries))))
            (valid ((Rest-IsTable total entries).0 r) (λ n. cons-ne-nil u us (sym e ∙ n))))

module _ {W : Type 0} (device_feature : ℕ → Feature → W → ℕ)
    (device_seek : ℕ → ℤ → SeekMode → W → W) (device_tell : ℕ → W → ℕ)
    (read_table : ℕ → W → W × List Entry) where
  abbrev pub table : ℕ → W → List Entry
  table id w =
      (read_table id (device_seek id (pos 0) seek_set (device_seek id (pos 0) seek_end w))).1

  abbrev pub sectors : ℕ → W → ℕ
  sectors id w = device_tell id (device_seek id (pos 0) seek_end w) / 2 ^ 9

  -- On a device with the features it needs, `mbr_init` accepts a table of four 32-bit entries exactly if
  -- its entries are good by themselves, no two partitions share a sector, and there is a partition; it
  -- then keeps the partitions in the order of the table, and marks the rest of the four as absent.
  pub mbr_init-IsMounted :
      (junk : Partition) (id : ℕ) (w : W)
      → mounts device_feature device_seek device_tell read_table id w ≡ true
      → length (table id w) ≡ 4
      → All FitsWord (table id w)
      → IsMounted
          (sectors id w)
          id
          junk
          (table id w)
          (mbr_init device_feature device_seek device_tell read_table junk (pos id) w).1
  unfolding mbr_init
  mbr_init-IsMounted junk id w m four fits =
      rw m (finish-IsMounted _ id junk _ four (add_entries-IsScan _ id _ [] fits tt))
