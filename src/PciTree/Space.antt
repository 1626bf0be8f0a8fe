-- ===== src/PciTree/Space.antt =====
-- nop/tree/pci.c: what the tree needs of the device that holds the configuration space, a function of
-- it by its address, and the functions that the scan of pci_init looks for.
use nop.Base.{
  refl, u16, ℕ, zero, suc, ◌+◌, ◌*◌, ◌^◌, ◌<◌, ◌≤◌, ◌≡◌, Bool, true, false, Memory, List, [], ◌∷◌,
  ◌++◌, leb, ◌==◌,
}
use nop.Base.Int.{ℤ, pos}
use nop.Api.{SeekMode, seek_set}
use nop.PciTree.{PciDevice}

abbrev pub space_size : ℕ
space_size = 2 ^ 24

-- `space` gives the bytes of the configuration space, `position` the offset of its device.
pub record IsSpace {W : Type 0} (id : ℕ) (device_seek : ℕ → ℤ → SeekMode → W → W)
    (device_read : ℕ → Memory → ℕ → ℕ → W → W × Memory × ℕ) (space : W → Memory) (position : W → ℕ)
    : Type 0 where
  pub seeks :
      (offset : ℕ) (w : W)
      → offset ≤ space_size
      → let w' = device_seek id (pos offset) seek_set w in
        (position w' ≡ offset) × (space w' ≡ space w)
  pub reads :
      (dst : Memory) (ptr n : ℕ) (w : W)
      → position w + n ≤ space_size
      → let (w', dst', count) = device_read id dst ptr n w in
        (position w' ≡ position w + n)
        × (space w' ≡ space w)
        × ((k : ℕ) → k < n → dst' (ptr + k) ≡ space w (position w + k))

-- Whether no function is at an address: its vendor is 0xFFFF.
abbrev pub vendor : Memory → ℕ → ℕ
vendor m addr = m (addr * 256) + 2 ^ 8 * m (addr * 256 + 1)

abbrev pub is_gone : Memory → ℕ → Bool
is_gone m addr = vendor m addr == 0xFFFF

-- The functions from an address on, up to the first that is not there.
unfoldable pub run : Memory → ℕ → ℕ → List ℕ
run m addr zero = []
run m addr (suc left) = elim (is_gone m addr) [
  | true ↦ []
  | false ↦ addr ∷ run m (u16 (addr + 1)) left
]

-- The functions of the slot at an address: one, or up to eight if the first says so.
unfoldable pub slot_functions : Memory → ℕ → List ℕ
slot_functions m addr = elim (is_gone m addr) [
  | true ↦ []
  | false ↦ elim (leb 0x80 (m (addr * 256 + 0x0E))) [
    | true ↦ addr ∷ run m (u16 (addr + 1)) 7
    | false ↦ addr ∷ []
  ]
]

-- The functions of the slots from the `i`-th on.
unfoldable pub all_functions : Memory → ℕ → ℕ → List ℕ
all_functions m zero i = []
all_functions m (suc left) i = slot_functions m (i * 8) ++ all_functions m left (i + 1)

-- The devices of functions, as the tree keeps them.
abbrev pub device_at : ℕ → ℕ → PciDevice
device_at id addr = record { id = id; offset = 0; addr = addr }

module _ (m : Memory) (addr : ℕ) where
  pub run_gone : (left : ℕ) → is_gone m addr ≡ true → run m addr (suc left) ≡ []
  unfolding run
  run_gone left gone = rw (gone, run) refl

  pub run_there :
      (left : ℕ)
      → is_gone m addr ≡ false
      → run m addr (suc left) ≡ addr ∷ run m (u16 (addr + 1)) left
  unfolding run
  run_there left there = rw (there, run) refl

  pub slot_gone : is_gone m addr ≡ true → slot_functions m addr ≡ []
  unfolding slot_functions
  slot_gone gone = rw (gone, slot_functions) refl

  pub slot_only :
      is_gone m addr ≡ false
      → leb 0x80 (m (addr * 256 + 0x0E)) ≡ false
      → slot_functions m addr ≡ addr ∷ []
  unfolding slot_functions
  slot_only there one = rw (there, one, slot_functions) refl

  pub slot_many :
      is_gone m addr ≡ false
      → leb 0x80 (m (addr * 256 + 0x0E)) ≡ true
      → slot_functions m addr ≡ addr ∷ run m (u16 (addr + 1)) 7
  unfolding slot_functions
  slot_many there many = rw (there, many, slot_functions) refl
