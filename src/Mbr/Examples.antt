-- ===== src/Mbr/Examples.antt =====
-- Runs of nop/tree/mbr.c, on a drive of 4096 sectors with two partitions; the state is the position.
use nop.Base.{ℕ, ◌+◌, ◌*◌, ◌≡◌, refl, arith, true, List, [], ◌∷◌}
use nop.Base.Int.{ℤ, pos}
use nop.Api.{Feature, feature_page_size, SeekMode, seek_set, seek_end, seek_cur}
use nop.Mbr.{Entry, Partition, mounts, mbr_init}
use nop.Mbr.Laws.{FitsWord}
use nop.Mbr.Scan.{IsMounted, mbr_init-IsMounted}

abbrev drive_feature : ℕ → Feature → ℕ → ℕ
drive_feature id feature_page_size w = 512
drive_feature id f w = 1

abbrev drive_seek : ℕ → ℤ → SeekMode → ℕ → ℕ
drive_seek id offset seek_set w = 0
drive_seek id offset seek_end w = 4096 * 512
drive_seek id offset seek_cur w = w

abbrev drive_tell : ℕ → ℕ → ℕ
drive_tell id w = w

abbrev empty : Entry
empty = record { kind = 0; start = 0; count = 0 }

abbrev first : Entry
first = record { kind = 0x83; start = 1; count = 2047 }

abbrev second : Entry
second = record { kind = 0x0C; start = 2048; count = 2048 }

abbrev two : List Entry
two = first ∷ empty ∷ second ∷ empty ∷ []

abbrev drive_read : ℕ → ℕ → ℕ × List Entry
drive_read id w = (w + 512, two)

abbrev junk : Partition
junk = record { id = pos 7; offset = 0; start = 0; count = 0; kind = 0 }

empty-FitsWord : FitsWord empty
empty-FitsWord = record { start = omega arith; count = omega arith }

drive-mounts : mounts drive_feature drive_seek drive_tell drive_read 3 0 ≡ true
unfolding mounts
drive-mounts = refl

mbr_init-IsMounted_example :
    IsMounted 4096 3 junk two
      (mbr_init drive_feature drive_seek drive_tell drive_read junk (pos 3) 0).1
mbr_init-IsMounted_example =
    mbr_init-IsMounted drive_feature drive_seek drive_tell drive_read junk 3 0 drive-mounts refl (
      record { start = omega arith; count = omega arith },
      (empty-FitsWord, (record { start = omega arith; count = omega arith }, (empty-FitsWord, tt))),
    )
