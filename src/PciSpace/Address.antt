-- ===== src/PciSpace/Address.antt =====
-- The address port: how an offset in the space selects a word, and what the ports then promise.
use nop.Base.{
  ℕ, zero, suc, ◌+◌, ◌*◌, ◌/◌, ◌%◌, ◌^◌, ◌<◌, ◌≤◌, ◌≡◌, refl, ◌∙◌, arith, bit_and, Bool, true, ◌==◌,
  ==_iff, Memory, IsBytes, u8, u16, ◌>>>◌,
}
use nop.Base.Bits.{passes, passes-at, join_high}
use nop.Base.Dwords.{load32, store32}
use nop.Endian.{byte}
use nop.PciSpace.{config_address, pci_dword_read, pci_dword_write}

low_row : ℕ → Bool
low_row x = bit_and x 0xFC == x / 4 * 4

low_table : passes low_row 256 ≡ true
unfolding passes low_row
low_table = refl

low_bits : (x : ℕ) → x < 256 → bit_and x 0xFC ≡ x / 4 * 4
low_bits x h =
    (==_iff (bit_and x 0xFC) (x / 4 * 4)).0 (unfold low_row in passes-at low_row x h low_table)

-- Every byte of the space is reached: its word is the one that the address names.
pub config_address_lem : (o : ℕ) → o < 2 ^ 24 → config_address (o >>> 8) o ≡ 2 ^ 31 + 4 * (o / 4)
unfolding config_address
config_address_lem o h =
    let low = low_bits (u8 o) (omega arith) in
    join_high 8 (2 ^ 23 + o / 2 ^ 8) (u8 o / 4 * 4)
      (join_high 31 1 (u16 (o / 2 ^ 8) * 2 ^ 8) refl (omega arith) (omega arith) ∙ omega arith) low
      (omega arith)
    ∙ omega arith

-- What the two ports promise: a word written to 0x0CF8 selects a word of the space, which 0x0CFC then
-- reads, and a read changes none. `space` gives the bytes of the configuration space.
pub record IsConfig {W : Type 0} (outd : ℕ → ℕ → W → W) (ind : ℕ → W → W × ℕ) (space : W → Memory)
    : Type 0 where
  pub bytes : (w : W) → IsBytes (space w)
  pub reads :
      (w : W) (k : ℕ)
      → k < 2 ^ 22
      → let (w', value) = ind 0x0CFC (outd (2 ^ 31 + 4 * k) 0x0CF8 w) in
        (value ≡ load32 (space w) (4 * k)) × (space w' ≡ space w)

-- Registers that hold what is written to them and have no other effect: those of the words from `lo` to `hi`.
pub record IsPlain {W : Type 0} (outd : ℕ → ℕ → W → W) (space : W → Memory) (lo hi : ℕ)
    : Type 0 where
  pub inside : hi ≤ 2 ^ 24
  pub whole : hi % 4 ≡ 0
  pub writes :
      (w : W) (k value a : ℕ)
      → lo ≤ 4 * k
      → 4 * k + 4 ≤ hi
      → space (outd value 0x0CFC (outd (2 ^ 31 + 4 * k) 0x0CF8 w)) a
        ≡ store32 (space w) (4 * k) value a

byte_at : (v q i : ℕ) → q ≡ 2 ^ (8 * i) → byte v i ≡ v / q % 2 ^ 8
byte_at v q i e = rw e refl

pub byte-load32 :
    (mem : Memory) (a i : ℕ) → IsBytes mem → i < 4 → byte (load32 mem a) i ≡ mem (a + i)
unfolding load32
byte-load32 mem a zero h lt =
    byte_at (load32 mem a) 1 0 refl ∙ ground (arith, h a, h (a + 1), h (a + 2), h (a + 3))
byte-load32 mem a (suc zero) h lt =
    byte_at (load32 mem a) (2 ^ 8) 1 refl ∙ ground (arith, h a, h (a + 1), h (a + 2), h (a + 3))
byte-load32 mem a (suc (suc zero)) h lt =
    byte_at (load32 mem a) (2 ^ 16) 2 refl ∙ ground (arith, h a, h (a + 1), h (a + 2), h (a + 3))
byte-load32 mem a (suc (suc (suc zero))) h lt =
    byte_at (load32 mem a) (2 ^ 24) 3 refl ∙ ground (arith, h a, h (a + 1), h (a + 2), h (a + 3))
byte-load32 mem a (suc (suc (suc (suc i)))) h lt = absurd (omega arith)

module _ {W : Type 0} {outd : ℕ → ℕ → W → W} {ind : ℕ → W → W × ℕ} {space : W → Memory}
    (c : IsConfig outd ind space) where
  pub pci_dword_read_lem :
      (w : W) (o : ℕ)
      → o < 2 ^ 24
      → let (w', value) = pci_dword_read outd ind (o >>> 8) o w in
        (value ≡ load32 (space w) (4 * (o / 4))) × (space w' ≡ space w)
  unfolding pci_dword_read
  pci_dword_read_lem w o h =
      rw (config_address_lem o h, pci_dword_read) (c.reads w (o / 4) (omega arith))

pub pci_dword_write_lem :
    {W : Type 0} (outd : ℕ → ℕ → W → W) (ind : ℕ → W → W × ℕ) {space : W → Memory} {lo hi : ℕ}
    → IsPlain outd space lo hi
    → (w : W) (o value a : ℕ) → lo ≤ 4 * (o / 4)
    → o < hi
    → space (pci_dword_write outd ind (o >>> 8) o value w) a
      ≡ store32 (space w) (4 * (o / 4)) value a
unfolding pci_dword_write
pci_dword_write_lem outd ind p w o value a low high =
    rw (config_address_lem o (omega (arith, p.inside)))
      (p.writes w (o / 4) value a low (omega (arith, p.whole)))
