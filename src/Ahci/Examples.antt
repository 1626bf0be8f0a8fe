-- ===== src/Ahci/Examples.antt =====
-- Runs of nop/tasks/ahci.c, on a drive of four sectors of 512 bytes.
use nop.Base.{◌≡◌, refl, ℕ, true}
use nop.Base.Int.{pos, negsuc}
use nop.Api.{seek_set, seek_end, seek_cur}
use nop.Ahci.{Ahci, cut, sought, ahci_device_seek}

abbrev drive : ℕ → Ahci
drive offset = record { can_lba48 = true; sector_width = 9; count = 4; offset = offset }

cut_at_end : cut (drive 2000) 100 ≡ 48
unfolding cut
cut_at_end = refl

whole_request : cut (drive 100) 1200 ≡ 1200
unfolding cut
whole_request = refl

before_start : ahci_device_seek (drive 100) (negsuc 200) seek_cur ≡ drive 0
unfolding ahci_device_seek sought
before_start = refl

behind_end : ahci_device_seek (drive 100) (pos 1) seek_end ≡ drive 2048
unfolding ahci_device_seek sought
behind_end = refl

inside : ahci_device_seek (drive 100) (pos 700) seek_set ≡ drive 700
unfolding ahci_device_seek sought
inside = refl
