-- ===== src/Temp/Examples.antt =====
-- Runs of nop/temp.c, on a block of eight bytes with three of them behind the offset.
use nop.Base.{ℕ, ◌+◌, ◌<◌, ◌≡◌, arith, Memory, of_list, [], ◌∷◌}
use nop.Base.Int.{pos}
use nop.Api.{seek_set}
use nop.Temp.{Temp, device_write, device_read, device_seek, device_tell}
use nop.Temp.Laws.{IsValid, device_read-device_write}

abbrev block : Temp
block = record { size = 8; offset = 5; bytes = of_list (1 ∷ 2 ∷ 3 ∷ 4 ∷ 5 ∷ 6 ∷ 7 ∷ 8 ∷ []) }

abbrev buffer : Memory
buffer = of_list (21 ∷ 22 ∷ 23 ∷ 24 ∷ [])

block-IsValid : IsValid block
block-IsValid = record { inside = omega arith; small = omega arith }

device_read-device_write_example :
    let (t', done) = device_write block buffer 1 3 in
    let ((t'', mem'), got) =
      device_read (device_seek t' (pos (device_tell block)) seek_set) buffer 9 3 in
    (done ≡ 3) × (got ≡ 3) × ((k : ℕ) → k < 3 → mem' (9 + k) ≡ buffer (1 + k))
device_read-device_write_example =
    device_read-device_write block buffer buffer 1 9 3 block-IsValid (omega arith)
