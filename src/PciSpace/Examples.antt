-- ===== src/PciSpace/Examples.antt =====
-- Runs of nop/arch/i386/tasks/pci.c, on ports with plain memory behind them.
use nop.Base.{
  ℕ, ◌+◌, ◌-◌, ◌*◌, ◌^◌, ◌≡◌, refl, ap, arith, Memory, IsBytes, of_list, of_list-IsBytes, [], ◌∷◌,
  u8, ◌==◌, ltb, leb, ◌||◌, false, if◌then◌else◌,
}
use nop.Base.Dwords.{load32, store32, store32-IsBytes}
use nop.CString.Copy.{copied}
use nop.PciSpace.{pci_device_read, pci_device_write}
use nop.PciSpace.Address.{IsConfig, IsPlain}
use nop.PciSpace.Read.{pci_device_read-copied}
use nop.PciSpace.Write.{pci_device_write-copied}

record Machine : Type 0 where
  latch : ℕ
  cells : Memory

abbrev space : Machine → Memory
space w a = u8 (w.cells a)

-- The words from 4 to 255 hold what is written to them; a write to another is ignored.
outd : ℕ → ℕ → Machine → Machine
outd value port w =
    if port == 0x0CF8
    then record w { latch = value }
    else if ltb (w.latch - 2 ^ 31) 4 || leb 256 (w.latch - 2 ^ 31)
    then w
    else record w { cells = store32 (space w) (w.latch - 2 ^ 31) value }

ind : ℕ → Machine → Machine × ℕ
ind port w = (w, load32 (space w) (w.latch - 2 ^ 31))

selected : (k : ℕ) → 2 ^ 31 + 4 * k - 2 ^ 31 ≡ 4 * k
selected k = omega arith

machine-IsConfig : IsConfig outd ind space
unfolding outd ind
machine-IsConfig = record {
  bytes = λ w a. omega arith;
  reads = λ w k lt. (ap (load32 (space w)) (selected k), refl);
}

machine-IsPlain : IsPlain outd space 4 256
unfolding outd
machine-IsPlain = record {
  inside = omega arith;
  whole = refl;
  writes = λ w k value a from to.
      let held : (ltb (4 * k) 4 || leb 256 (4 * k)) ≡ false = ground arith in
      rw (selected k, held)
        (omega (arith, store32-IsBytes (space w) (4 * k) value (λ b. omega arith) a));
}

abbrev machine : Machine
machine = record { latch = 0; cells = of_list (1 ∷ 2 ∷ 3 ∷ 4 ∷ 5 ∷ 6 ∷ 7 ∷ 8 ∷ []) }

abbrev buffer : Memory
buffer = of_list (21 ∷ 22 ∷ 23 ∷ 24 ∷ 25 ∷ 26 ∷ [])

buffer-IsBytes : IsBytes buffer
buffer-IsBytes = of_list-IsBytes (21 ∷ 22 ∷ 23 ∷ 24 ∷ 25 ∷ 26 ∷ []) (omega arith)

pci_device_read-copied_example :
    let (w', dst', offset') = pci_device_read outd ind 1 buffer 10 6 machine in
    ((a : ℕ) → dst' a ≡ copied (space machine) buffer 10 1 6 a)
    × (offset' ≡ 7)
    × (space w' ≡ space machine)
pci_device_read-copied_example =
    pci_device_read-copied outd ind space machine-IsConfig 1 10 6 buffer machine (omega arith)

pci_device_write-copied_example :
    let (w', offset') = pci_device_write outd ind 4 buffer 0 6 machine in
    ((a : ℕ) → space w' a ≡ copied buffer (space machine) 4 0 6 a) × (offset' ≡ 10)
pci_device_write-copied_example =
    pci_device_write-copied outd ind space 4 256 machine-IsConfig machine-IsPlain 4 0 6 buffer
      machine (omega arith) refl (omega arith) (omega arith) buffer-IsBytes
