-- ===== src/PciTree/Config.antt =====
-- nop/tree/pci.c on nop/arch/i386/tasks/pci.c: the device of the configuration space as the tree sees it.
-- Its read has no `return`, so `answer` stands for the value that a caller finds.
use nop.Base.{ℕ, refl, ◌+◌, ◌-◌, ◌≡◌, ◌∙◌, ap, arith, min, Memory}
use nop.Base.Int.{ℤ}
use nop.Api.{SeekMode, seek, clamp, moved}
use nop.PciSpace.{size, pci_device_read, pci_device_seek}
use nop.PciSpace.Address.{IsConfig}
use nop.PciSpace.Read.{pci_device_read-copied}
use nop.PciTree.Space.{IsSpace}

abbrev pub config_seek : {W : Type 0} → ℕ → ℤ → SeekMode → W × ℕ → W × ℕ
config_seek id offset mode w = (w.0, pci_device_seek w.1 offset mode)

module _ {W : Type 0} (outd : ℕ → ℕ → W → W) (ind : ℕ → W → W × ℕ) (answer : W → ℕ) where
  abbrev pub config_read : ℕ → Memory → ℕ → ℕ → W × ℕ → (W × ℕ) × Memory × ℕ
  config_read id dst ptr n w =
      let (w', dst', offset') = pci_device_read outd ind w.1 dst ptr n w.0 in
      ((w', offset'), dst', answer w')

  pub config-IsSpace :
      (id : ℕ) (space : W → Memory)
      → IsConfig outd ind space
      → IsSpace id config_seek config_read (λ w. space w.0) (λ w. w.1)
  unfolding pci_device_seek seek clamp moved
  config-IsSpace id space c = record {
    seeks = λ offset w inside. (ground arith, refl);
    reads = λ dst ptr n w inside.
        let all : min n (size - w.1) ≡ n = ground arith in
        let (bytes, at, kept) =
          pci_device_read-copied outd ind space c w.1 ptr n dst w.0 (omega arith) in
        (at ∙ ap (λ (k : ℕ). w.1 + k) all, kept, λ k lt. bytes (ptr + k) ∙ ground (arith, all));
  }
