-- ===== src/PciTree/Examples.antt =====
-- Runs of nop/tree/pci.c, on a device whose space is plain memory: a multi-function device with a gap.
use nop.Base.{
  ℕ, ◌+◌, ◌-◌, ◌*◌, ◌≡◌, refl, ap, arith, Memory, [], ◌∷◌, map, of_list, of_list-IsBytes, codes,
  some, if◌then◌else◌, ltb, ◌==◌,
}
use nop.Base.Int.{ℤ, pos, negsuc}
use nop.Api.{Feature, SeekMode}
use nop.CString.{memcpy_from}
use nop.Base.{IsBytes, ◌^◌}
use nop.Base.Dwords.{load32}
use nop.PciSpace.{pci_device_feature}
use nop.PciSpace.Address.{IsConfig}
use nop.PciTree.Config.{config_seek, config_read, config-IsSpace}
use nop.PciTree.{
  is_present, test_loop, read_ids, read_header_type, pci_push, pci_init, pci_test, pci_open,
  entry_name,
}
use nop.PciTree.Space.{all_functions, device_at}
use nop.PciTree.Test.{Answers}
use nop.PciTree.Scan.{pci_init-IsScanned}
use nop.PciTree.Laws.{pci_open-entry_name}

abbrev Plain : Type 0
Plain = Memory × ℕ

abbrev answers_one : ℕ → Feature → Plain → ℕ
answers_one id f w = 1

abbrev seeks_plain : ℕ → ℤ → SeekMode → Plain → Plain
seeks_plain id (pos n) mode w = (w.0, n)
seeks_plain id (negsuc n) mode w = w

abbrev reads_plain : ℕ → Memory → ℕ → ℕ → Plain → Plain × Memory × ℕ
reads_plain id dst ptr n w = ((w.0, w.1 + n), memcpy_from w.0 dst ptr w.1 n, n)

abbrev writes_plain : ℕ → Memory → ℕ → ℕ → Plain → Plain × ℕ
writes_plain id src ptr n w = (w, n)

abbrev blank : Memory
blank a = 0

-- Functions 0, 1 and 3 of slot 1, where function 2 is missing; the first says that there are several.
abbrev gap : Memory
gap a =
    if a == 8 * 256 + 0x0E
    then 0x80
    else if ltb a (8 * 256)
    then 0xFF
    else if ltb a (10 * 256)
    then 0x12
    else if ltb a (11 * 256)
    then 0xFF
    else if ltb a (12 * 256)
    then 0x12
    else 0xFF

after_gap :
    (pci_test answers_one seeks_plain reads_plain writes_plain blank 3 8 [] (gap, 0)).1
    ≡ device_at 3 8 ∷ device_at 3 9 ∷ []
unfolding pci_test test_loop read_ids read_header_type pci_push memcpy_from
after_gap = refl

-- The ports over this space, none of whose registers can be written; the state is the word selected.
abbrev outd : ℕ → ℕ → ℕ → ℕ
outd value port w = if port == 0x0CF8 then value else w

abbrev ind : ℕ → ℕ → ℕ × ℕ
ind port w = (w, load32 gap (w - 2 ^ 31))

gap-IsBytes : IsBytes gap
gap-IsBytes a = ground arith

gap-IsConfig : IsConfig outd ind (λ w. gap)
gap-IsConfig = record {
  bytes = λ w. gap-IsBytes;
  reads = λ w k lt.
      let selected : 2 ^ 31 + 4 * k - 2 ^ 31 ≡ 4 * k = omega arith in
      (ap (load32 gap) selected, refl);
}

abbrev feature_of : ℕ → Feature → ℕ × ℕ → ℕ
feature_of id f w = pci_device_feature f

abbrev ignored : ℕ → Memory → ℕ → ℕ → ℕ × ℕ → (ℕ × ℕ) × ℕ
ignored id src ptr n w = (w, 0)

-- The device of nop/arch/i386/tasks/pci.c on these ports.
pci_init-IsScanned_example :
    Answers 3 feature_of config_seek
      (config_read outd ind (λ w. 0))
      ignored
      blank
      (λ w. gap)
      (λ w. w.1)
      (config-IsSpace outd ind (λ w. 0) 3 (λ w. gap) gap-IsConfig)
      gap
      (pci_init feature_of config_seek
        (config_read outd ind (λ w. 0))
        ignored
        blank
        (of_list (codes "$pci"))
        0
        (pos 3)
        (0, 0))
      (some (map (device_at 3) (all_functions gap 8192 0)))
unfolding pci_device_feature is_present
pci_init-IsScanned_example =
    pci_init-IsScanned 3 feature_of config_seek (config_read outd ind (λ w. 0)) ignored blank
      (λ w. gap) (λ w. w.1) (config-IsSpace outd ind (λ w. 0) 3 (λ w. gap) gap-IsConfig) gap
      (of_list (codes "$pci")) 0 (0, 0) (of_list-IsBytes (codes "$pci") (omega arith))
      (λ i lt. refl) refl refl refl refl refl

pci_open-entry_name_example :
    pci_open 3 (entry_name blank 100 (device_at 3 0x1F8)) 100 ≡ some (device_at 3 0x1F8)
pci_open-entry_name_example = pci_open-entry_name 3 blank 100 (device_at 3 0x1F8) (omega arith)
