-- ===== src/Mbr.antt =====
-- nop/tree/mbr.c: the partition table that `mbr_init` accepts. The device is reached by its calls
-- alone, which are parameters on the state `W` of the system; `read_table` is the `device_read` of a
-- sector into `mbr_table_t`. The tree's data is the answer, `none` being the early `return 0`.
pub mod Laws
pub mod Scan
mod Examples
use nop.Base.{
  ℕ, zero, suc, ◌+◌, ◌-◌, ◌%◌, ◌^◌, Bool, true, false, ◌&&◌, ◌||◌, not, Option, none, some, List,
  [], ◌∷◌, ◌++◌, u64, ltb, leb, ◌==◌, if◌then◌else◌, ◌>>>◌,
}
use nop.Base.Int.{ℤ, pos, negsuc}
use nop.Api.{
  Feature, feature_present, feature_write, feature_read, feature_seek, feature_page_size, SeekMode,
  seek_set, seek_end,
}

-- The fields of a table entry that the code reads.
pub record Entry : Type 0 where
  pub kind : ℕ
  pub start : ℕ
  pub count : ℕ

pub record Partition : Type 0 where
  pub id : ℤ
  pub offset : ℕ
  pub start : ℕ
  pub count : ℕ
  pub kind : ℕ

unfoldable pub partition : ℕ → Entry → Partition
partition id e = record { id = pos id; offset = 0; start = e.start; count = e.count; kind = e.kind }

-- The loop over `j`: whether it reaches `return 0`.
unfoldable pub overlaps : Partition → List Partition → Bool
overlaps p [] = false
overlaps p (q ∷ mbr) =
    let rest = overlaps p mbr in
    if leb (u64 (q.start + q.count)) p.start
    then rest
    else if leb (u64 (p.start + p.count)) q.start
    then rest
    else true

-- One round of the loop over `i`; `count` is the number of sectors.
unfoldable pub add_entry : ℕ → ℕ → Entry → List Partition → Option (List Partition)
add_entry count id e mbr =
    if e.start == 0 && not (e.count == 0)
    then none
    else if not (e.start == 0) && e.count == 0
    then none
    else if e.count == 0
    then some mbr
    else if ltb count (u64 (e.start + e.count))
    then none
    else if e.kind == 0xEE
    then none
    else if overlaps (partition id e) mbr
    then none
    else some (mbr ++ partition id e ∷ [])

unfoldable pub add_entries : ℕ → ℕ → List Entry → List Partition → Option (List Partition)
add_entries count id [] mbr = some mbr
add_entries count id (e ∷ entries) mbr = elim (add_entry count id e mbr) [
  | none ↦ none
  | some mbr' ↦ add_entries count id entries mbr'
]

-- `mbr[i].id = -1` in the rest of the four; `junk` is what an entry holds that was never set.
unfoldable pub fill : Partition → ℕ → List Partition → List Partition
fill junk zero mbr = mbr
fill junk (suc n) [] = record junk { id = negsuc 0 } ∷ fill junk n []
fill junk (suc n) (p ∷ mbr) = p ∷ fill junk n mbr

unfoldable pub finish : Partition → Option (List Partition) → Option (List Partition)
finish junk none = none
finish junk (some []) = none
finish junk (some (p ∷ mbr)) = some (fill junk 4 (p ∷ mbr))

module _ {W : Type 0} (device_feature : ℕ → Feature → W → ℕ)
    (device_seek : ℕ → ℤ → SeekMode → W → W) (device_tell : ℕ → W → ℕ)
    (read_table : ℕ → W → W × List Entry) where
  unfoldable pub mounts : ℕ → W → Bool
  mounts id w =
      not (device_feature id feature_present w == 0)
      && not (device_feature id feature_write w == 0)
      && not (device_feature id feature_read w == 0)
      && not (device_feature id feature_seek w == 0)
      && device_feature id feature_page_size w == 512

  unfoldable pub mbr_init : Partition → ℤ → W → W × Option (List Partition)
  mbr_init junk (negsuc n) w = (w, none)
  mbr_init junk (pos id) w =
      if mounts id w
      then (let at_end = device_seek id (pos 0) seek_end w in
          let count = device_tell id at_end >>> 9 in
          let (w', entries) = read_table id (device_seek id (pos 0) seek_set at_end) in
          (w', finish junk (add_entries count id entries [])))
      else (w, none)
