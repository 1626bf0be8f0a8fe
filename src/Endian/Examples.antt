-- ===== src/Endian/Examples.antt =====
-- lib/endian.c: runs, and the laws at concrete words.
use mathlib.Core.List.{reverse}
use nop.Base.{◌≡◌, refl}
use nop.Endian.{
  uint16be_to_host, uint32be_to_host, uint64be_to_host, int16be_to_host, int32be_to_host,
  int64be_to_host,
}
use nop.Endian.Laws.{to_host-be_reverse, storage2, storage4, storage8}

network_order : uint32be_to_host 0x12345678 ≡ 0x78563412
unfolding uint32be_to_host
network_order = refl

to_host-be_reverse_example :
    (storage2 (uint16be_to_host 0x0012beef) ≡ reverse (storage2 0x0012beef))
    × (storage2 (int16be_to_host 0x0012beef) ≡ reverse (storage2 0x0012beef))
    × (storage4 (uint32be_to_host 0x0012beef) ≡ reverse (storage4 0x0012beef))
    × (storage4 (int32be_to_host 0x0012beef) ≡ reverse (storage4 0x0012beef))
    × (storage8 (uint64be_to_host 0x0012beef) ≡ reverse (storage8 0x0012beef))
    × (storage8 (int64be_to_host 0x0012beef) ≡ reverse (storage8 0x0012beef))
to_host-be_reverse_example = to_host-be_reverse 0x0012beef
