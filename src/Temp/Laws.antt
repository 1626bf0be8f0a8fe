-- ===== src/Temp/Laws.antt =====
-- nop/temp.c: the offset stays inside the block, a seek clamps, and what was written is read back.
use nop.Base.{ℕ, ◌+◌, ◌-◌, ◌^◌, ◌≤◌, ◌<◌, ◌≡◌, refl, ap, ◌∙◌, arith, Memory, min, u32}
use nop.Base.Int.{ℤ, pos}
use nop.CString.Copy.{copied, memcpy_from-copied}
use nop.Api.{SeekMode, seek_set}
use nop.Api.Laws.{base, magnitude, target, clamped, seek-clamped}
use nop.Temp.{Temp, clip, device_write, device_read, device_seek, device_tell}

pub record IsValid (t : Temp) : Type 0 where
  pub inside : t.offset ≤ t.size
  pub small : t.size < 2 ^ 31

clip-min : (t : Temp) (n : ℕ) → IsValid t → clip t n ≡ min n (t.size - t.offset)
unfolding clip
clip-min t n v = ground (arith, v.inside, v.small)

-- On a valid block a write keeps the block valid, moves by the number of bytes it returns, which is
-- what was asked for cut to the rest of the block, and puts exactly these bytes there.
pub device_write_lem :
    (t : Temp) (mem : Memory) (ptr n : ℕ)
    → IsValid t
    → let (t', done) = device_write t mem ptr n in
      IsValid t'
      × (done ≡ min n (t.size - t.offset))
      × (device_tell t' ≡ device_tell t + done)
      × ((a : ℕ) → t'.bytes a ≡ copied mem t.bytes t.offset ptr done a)
unfolding device_write device_tell
device_write_lem t mem ptr n v =
    let least = clip-min t n v in
    let fits : t.offset + clip t n ≤ t.size = omega (arith, v.inside, least) in
    let kept : u32 (t.offset + clip t n) ≡ t.offset + clip t n = omega (arith, fits, v.small) in
    (
      record { inside = omega (arith, kept, fits); small = v.small },
      least,
      kept,
      memcpy_from-copied (clip t n) mem t.bytes t.offset ptr,
    )

-- On a valid block a read moves by the number of bytes it returns, which is what was asked for cut to
-- the rest of the block, copies exactly these bytes to the buffer, and leaves the block's bytes alone.
pub device_read_lem :
    (t : Temp) (mem : Memory) (ptr n : ℕ)
    → IsValid t
    → let ((t', mem'), done) = device_read t mem ptr n in
      IsValid t'
      × (done ≡ min n (t.size - t.offset))
      × (device_tell t' ≡ device_tell t + done)
      × (t'.bytes ≡ t.bytes)
      × ((a : ℕ) → mem' a ≡ copied t.bytes mem ptr t.offset done a)
unfolding device_read device_tell
device_read_lem t mem ptr n v =
    let least = clip-min t n v in
    let fits : t.offset + clip t n ≤ t.size = omega (arith, v.inside, least) in
    let kept : u32 (t.offset + clip t n) ≡ t.offset + clip t n = omega (arith, fits, v.small) in
    (
      record { inside = omega (arith, kept, fits); small = v.small },
      least,
      kept,
      refl,
      memcpy_from-copied (clip t n) t.bytes mem ptr t.offset,
    )

-- On a valid block a seek by an offset that takes no sum out of 32 bits goes to the position asked for,
-- or to the end of the block that is nearest, and changes nothing else.
pub device_seek-clamped :
    (t : Temp) (offset : ℤ) (mode : SeekMode)
    → IsValid t
    → base t.size t.offset mode + magnitude offset < 2 ^ 31
    → device_seek t offset mode
      ≡ record t { offset = clamped t.size (target (base t.size t.offset mode) offset) }
unfolding device_seek
device_seek-clamped t offset mode v h =
    ap (λ (o : ℕ). record t { offset = o })
      (seek-clamped t.size t.offset offset mode v.small v.inside h)

seek_back :
    (t : Temp) (offset : ℕ)
    → IsValid t
    → offset ≤ t.size
    → device_seek t (pos offset) seek_set ≡ record t { offset = offset }
seek_back t offset v h =
    device_seek-clamped t (pos offset) seek_set v (omega (arith, v.small))
    ∙ ap (λ (o : ℕ). record t { offset = o }) (omega (arith, h))

-- On a valid block, bytes that fit behind the offset and are written there are read back from there.
pub device_read-device_write :
    (t : Temp) (mem mem' : Memory) (ptr ptr' n : ℕ)
    → IsValid t
    → n ≤ t.size - t.offset
    → let (t', done) = device_write t mem ptr n in
      let ((t'', buffer), got) =
        device_read (device_seek t' (pos (device_tell t)) seek_set) mem' ptr' n in
      (done ≡ n) × (got ≡ n) × ((k : ℕ) → k < n → buffer (ptr' + k) ≡ mem (ptr + k))
unfolding device_write device_tell
device_read-device_write t mem mem' ptr ptr' n v room =
    let t' = (device_write t mem ptr n).0 in
    let (v', done, told, put) = device_write_lem t mem ptr n v in
    let all : clip t n ≡ n = omega (arith, done, room) in
    let back = seek_back t' t.offset v' (omega (arith, v.inside)) in
    let v'' : IsValid (record t' { offset = t.offset }) = record {
      inside = v.inside;
      small = v.small;
    } in
    let (_, got, _, _, taken) = device_read_lem (record t' { offset = t.offset }) mem' ptr' n v'' in
    (
      all,
      rw back (omega (arith, got, room)),
      λ k lt. rw back (ground (arith, taken (ptr' + k), put (t.offset + k))),
    )
