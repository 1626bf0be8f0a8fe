-- ===== src/PciTree/Scan.antt =====
-- nop/tree/pci.c: what the scan of pci_init finds.
use mathlib.Core.List.{append_assoc, append-nil, map-append}
use nop.Base.{
  ℕ, zero, suc, ◌+◌, ◌*◌, ◌/◌, ◌^◌, ◌<◌, ◌≤◌, ◌≡◌, refl, ◌∙◌, ap, sym, arith, true, Memory, List,
  [], ◌++◌, map, u16, ◌<<<◌, some, of_list, codes,
}
use nop.Base.Int.{ℤ, pos}
use nop.Api.{Feature, feature_present, feature_read, feature_write, feature_seek, SeekMode}
use nop.PciTree.Test.{Answers, transport-Answers, appended, loop, loop-slot_functions}
use nop.CString.Compare.{SameBytes, memcmp-SameBytes}
use nop.Base.{IsBytes, of_list-IsBytes}
use nop.PciTree.{PciDevice, pci_test, scan, is_present, pci_init}
use nop.PciTree.Space.{IsSpace, slot_functions, all_functions, device_at}

module _ {W : Type 0} (id : ℕ) (device_feature : ℕ → Feature → W → ℕ)
    (device_seek : ℕ → ℤ → SeekMode → W → W) (device_read : ℕ → Memory → ℕ → ℕ → W → W × Memory × ℕ)
    (device_write : ℕ → Memory → ℕ → ℕ → W → W × ℕ) (junk : Memory) (space : W → Memory)
    (position : W → ℕ) (d : IsSpace id device_seek device_read space position) (m : Memory) where
  abbrev scanned : ℕ → ℕ → List PciDevice → W → W × List PciDevice
  scanned left i devices w =
      scan device_feature device_seek device_read device_write junk id left i devices w

  abbrev tested : ℕ → List PciDevice → W → W × List PciDevice
  tested addr devices w =
      pci_test device_feature device_seek device_read device_write junk id addr devices w

  pci_test-Answers :
      (i : ℕ) (devices : List PciDevice) (w : W)
      → i < 8192
      → space w ≡ m
      → Answers id device_feature device_seek device_read device_write junk space position d m
          (tested (u16 (i <<< 3)) devices w)
          (appended id device_feature device_seek device_read device_write junk space position d m
            devices
            (slot_functions m (i * 8)))
  unfolding pci_test
  pci_test-Answers i devices w small is_m =
      let base : u16 (u16 (i * 2 ^ 3)) / 8 * 8 ≡ i * 8 = omega arith in
      transport-Answers id device_feature device_seek device_read device_write junk space position d
        m
        (ap
          (λ (a : ℕ).
            loop id device_feature device_seek device_read device_write junk space position d m 8 0
              a devices w)
          base)
        refl
        (loop-slot_functions id device_feature device_seek device_read device_write junk space
          position d m (i * 8) devices w (omega arith) is_m)

  scan-Answers :
      (left i : ℕ) (devices : List PciDevice) (w : W)
      → i + left ≤ 8192
      → space w ≡ m
      → Answers id device_feature device_seek device_read device_write junk space position d m
          (scanned left i devices w)
          (appended id device_feature device_seek device_read device_write junk space position d m
            devices
            (all_functions m left i))
  unfolding scan all_functions
  scan-Answers zero i devices w small is_m = record {
    answers = sym (append-nil devices);
    kept = is_m;
  }
  scan-Answers (suc left) i devices w small is_m =
      let a = pci_test-Answers i devices w (omega arith) is_m in
      let r = tested (u16 (i <<< 3)) devices w in
      let these = slot_functions m (i * 8) in
      let those = all_functions m left (i + 1) in
      transport-Answers id device_feature device_seek device_read device_write junk space position d
        m refl
        (ap (λ (x : List PciDevice). devices ++ x) (map-append (device_at id) these those)
          ∙ sym (append_assoc devices (map (device_at id) these) (map (device_at id) those))
          ∙ ap
              (λ (x : List PciDevice).
                appended id device_feature device_seek device_read device_write junk space position
                  d m x those)
              (sym a.answers))
        (scan-Answers left (i + 1) r.1 r.0 (omega arith) a.kept)

  -- If the device is there and can be written, read and moved, and the name begins with "$pci",
  -- pci_init mounts a tree of the functions that are found slot by slot, in this order: of a slot whose
  -- first function is there, that one or, if its header says so, those up to the first that is missing;
  -- the space is left as it was.
  pub pci_init-IsScanned :
      (mem : Memory) (name : ℕ) (w : W)
      → IsBytes mem
      → SameBytes mem name (of_list (codes "$pci")) 0 4
      → is_present device_feature device_seek device_read device_write junk feature_present id w
        ≡ true
      → is_present device_feature device_seek device_read device_write junk feature_write id w
        ≡ true
      → is_present device_feature device_seek device_read device_write junk feature_read id w ≡ true
      → is_present device_feature device_seek device_read device_write junk feature_seek id w ≡ true
      → space w ≡ m
      → Answers id device_feature device_seek device_read device_write junk space position d m
          (pci_init device_feature device_seek device_read device_write junk mem name (pos id) w)
          (some (map (device_at id) (all_functions m 8192 0)))
  unfolding pci_init
  pci_init-IsScanned mem name w bytes named p1 p2 p3 p4 is_m =
      let same =
        (memcmp-SameBytes mem (of_list (codes "$pci")) bytes
            (of_list-IsBytes (codes "$pci") (omega arith)) 4 name 0).1
          named in
      let a = scan-Answers 8192 0 [] w (omega arith) is_m in
      rw (p1, same, p2, p3, p4, pci_init) (record { answers = ap some a.answers; kept = a.kept })
