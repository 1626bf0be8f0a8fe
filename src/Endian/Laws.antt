-- ===== src/Endian/Laws.antt =====
-- lib/endian.c: the conversions as sums of bytes, and what follows: little-endian conversion is the
-- identity on this host, big-endian conversion reverses the bytes and is its own inverse.
use mathlib.Core.List.{reverse}
use nop.Base.{ℕ, ◌+◌, ◌*◌, ◌^◌, ◌<◌, ◌≡◌, ◌∙◌, ap, List, [], ◌∷◌, arith, u16, u32, u64}
use nop.Base.Bits.{join_low, join_high}
use nop.Endian.{
  byte, int16le_to_host, int16be_to_host, int32le_to_host, int32be_to_host, int64le_to_host,
  int64be_to_host, uint16le_to_host, uint16be_to_host, uint32le_to_host, uint32be_to_host,
  uint64le_to_host, uint64be_to_host,
}

uint16le_sum : (n : ℕ) → uint16le_to_host n ≡ byte n 0 + byte n 1 * 2 ^ 8
unfolding uint16le_to_host
uint16le_sum n = join_low 8 (byte n 1) (byte n 0) (omega arith) (omega arith) (omega arith)

uint16be_sum : (n : ℕ) → uint16be_to_host n ≡ byte n 0 * 2 ^ 8 + byte n 1
unfolding uint16be_to_host
uint16be_sum n =
    join_high 8 (byte n 0) (byte n 1) (omega arith) (omega arith) (omega arith) ∙ omega arith

uint32le_sum :
    (n : ℕ)
    → uint32le_to_host n ≡ byte n 0 + byte n 1 * 2 ^ 8 + byte n 2 * 2 ^ 16 + byte n 3 * 2 ^ 24
unfolding uint32le_to_host
uint32le_sum n =
    join_low 24 (byte n 3) (byte n 0 + byte n 1 * 2 ^ 8 + byte n 2 * 2 ^ 16)
      (join_low 16 (byte n 2) (byte n 0 + byte n 1 * 2 ^ 8)
        (join_low 8 (byte n 1) (byte n 0) (omega arith) (omega arith) (omega arith)) (omega arith)
        (omega arith))
      (omega arith) (omega arith)

uint32be_sum :
    (n : ℕ)
    → uint32be_to_host n ≡ byte n 0 * 2 ^ 24 + byte n 1 * 2 ^ 16 + byte n 2 * 2 ^ 8 + byte n 3
unfolding uint32be_to_host
uint32be_sum n =
    join_high 8 (byte n 0 * 2 ^ 16 + byte n 1 * 2 ^ 8 + byte n 2) (byte n 3)
      (join_high 16 (byte n 0 * 2 ^ 8 + byte n 1) (byte n 2 * 2 ^ 8)
          (join_high 24 (byte n 0) (byte n 1 * 2 ^ 16) (omega arith) (omega arith) (omega arith)
            ∙ omega arith)
          (omega arith) (omega arith)
        ∙ omega arith)
      (omega arith) (omega arith)
    ∙ omega arith

uint64le_sum :
    (n : ℕ)
    → uint64le_to_host n
      ≡ byte n 0
        + byte n 1 * 2 ^ 8
        + byte n 2 * 2 ^ 16
        + byte n 3 * 2 ^ 24
        + byte n 4 * 2 ^ 32
        + byte n 5 * 2 ^ 40
        + byte n 6 * 2 ^ 48
        + byte n 7 * 2 ^ 56
unfolding uint64le_to_host
uint64le_sum n =
    join_low 56 (byte n 7)
      (byte n 0
        + byte n 1 * 2 ^ 8
        + byte n 2 * 2 ^ 16
        + byte n 3 * 2 ^ 24
        + byte n 4 * 2 ^ 32
        + byte n 5 * 2 ^ 40
        + byte n 6 * 2 ^ 48)
      (join_low 48 (byte n 6)
        (byte n 0
          + byte n 1 * 2 ^ 8
          + byte n 2 * 2 ^ 16
          + byte n 3 * 2 ^ 24
          + byte n 4 * 2 ^ 32
          + byte n 5 * 2 ^ 40)
        (join_low 40 (byte n 5)
          (byte n 0 + byte n 1 * 2 ^ 8 + byte n 2 * 2 ^ 16 + byte n 3 * 2 ^ 24 + byte n 4 * 2 ^ 32)
          (join_low 32 (byte n 4)
            (byte n 0 + byte n 1 * 2 ^ 8 + byte n 2 * 2 ^ 16 + byte n 3 * 2 ^ 24)
            (join_low 24 (byte n 3) (byte n 0 + byte n 1 * 2 ^ 8 + byte n 2 * 2 ^ 16)
              (join_low 16 (byte n 2) (byte n 0 + byte n 1 * 2 ^ 8)
                (join_low 8 (byte n 1) (byte n 0) (omega arith) (omega arith) (omega arith))
                (omega arith) (omega arith))
              (omega arith) (omega arith))
            (omega arith) (omega arith))
          (omega arith) (omega arith))
        (omega arith) (omega arith))
      (omega arith) (omega arith)

uint64be_sum :
    (n : ℕ)
    → uint64be_to_host n
      ≡ byte n 0 * 2 ^ 56
        + byte n 1 * 2 ^ 48
        + byte n 2 * 2 ^ 40
        + byte n 3 * 2 ^ 32
        + byte n 4 * 2 ^ 24
        + byte n 5 * 2 ^ 16
        + byte n 6 * 2 ^ 8
        + byte n 7
unfolding uint64be_to_host
uint64be_sum n =
    join_high 8
      (byte n 0 * 2 ^ 48
        + byte n 1 * 2 ^ 40
        + byte n 2 * 2 ^ 32
        + byte n 3 * 2 ^ 24
        + byte n 4 * 2 ^ 16
        + byte n 5 * 2 ^ 8
        + byte n 6)
      (byte n 7)
      (join_high 16
          (byte n 0 * 2 ^ 40
            + byte n 1 * 2 ^ 32
            + byte n 2 * 2 ^ 24
            + byte n 3 * 2 ^ 16
            + byte n 4 * 2 ^ 8
            + byte n 5)
          (byte n 6 * 2 ^ 8)
          (join_high 24
              (byte n 0 * 2 ^ 32
                + byte n 1 * 2 ^ 24
                + byte n 2 * 2 ^ 16
                + byte n 3 * 2 ^ 8
                + byte n 4)
              (byte n 5 * 2 ^ 16)
              (join_high 32 (byte n 0 * 2 ^ 24 + byte n 1 * 2 ^ 16 + byte n 2 * 2 ^ 8 + byte n 3)
                  (byte n 4 * 2 ^ 24)
                  (join_high 40 (byte n 0 * 2 ^ 16 + byte n 1 * 2 ^ 8 + byte n 2)
                      (byte n 3 * 2 ^ 32)
                      (join_high 48 (byte n 0 * 2 ^ 8 + byte n 1) (byte n 2 * 2 ^ 40)
                          (join_high 56 (byte n 0) (byte n 1 * 2 ^ 48) (omega arith) (omega arith)
                              (omega arith)
                            ∙ omega arith)
                          (omega arith) (omega arith)
                        ∙ omega arith)
                      (omega arith) (omega arith)
                    ∙ omega arith)
                  (omega arith) (omega arith)
                ∙ omega arith)
              (omega arith) (omega arith)
            ∙ omega arith)
          (omega arith) (omega arith)
        ∙ omega arith)
      (omega arith) (omega arith)
    ∙ omega arith

abbrev pub storage2 : ℕ → List ℕ
storage2 n = byte n 0 ∷ byte n 1 ∷ []

storage2-be : (n : ℕ) → storage2 (uint16be_to_host n) ≡ reverse (storage2 n)
storage2-be n = rw (uint16be_sum n) (ground arith)

uint16be_twice : (n : ℕ) → n < 2 ^ 16 → uint16be_to_host (uint16be_to_host n) ≡ n
uint16be_twice n h = omega (arith, uint16be_sum n, uint16be_sum (uint16be_to_host n))

int16be_eq : (n : ℕ) → int16be_to_host n ≡ uint16be_to_host n
unfolding int16be_to_host uint16be_to_host
int16be_eq n = ap u16 (uint16be_sum n) ∙ omega (arith, uint16be_sum n)

int16be_twice : (n : ℕ) → n < 2 ^ 16 → int16be_to_host (int16be_to_host n) ≡ n
int16be_twice n h = rw (int16be_eq n, int16be_eq (uint16be_to_host n)) (uint16be_twice n h)

abbrev pub storage4 : ℕ → List ℕ
storage4 n = byte n 0 ∷ byte n 1 ∷ byte n 2 ∷ byte n 3 ∷ []

storage4-be : (n : ℕ) → storage4 (uint32be_to_host n) ≡ reverse (storage4 n)
storage4-be n = rw (uint32be_sum n) (ground arith)

uint32be_twice : (n : ℕ) → n < 2 ^ 32 → uint32be_to_host (uint32be_to_host n) ≡ n
uint32be_twice n h = omega (arith, uint32be_sum n, uint32be_sum (uint32be_to_host n))

int32be_eq : (n : ℕ) → int32be_to_host n ≡ uint32be_to_host n
unfolding int32be_to_host uint32be_to_host
int32be_eq n = ap u32 (uint32be_sum n) ∙ omega (arith, uint32be_sum n)

int32be_twice : (n : ℕ) → n < 2 ^ 32 → int32be_to_host (int32be_to_host n) ≡ n
int32be_twice n h = rw (int32be_eq n, int32be_eq (uint32be_to_host n)) (uint32be_twice n h)

abbrev pub storage8 : ℕ → List ℕ
storage8 n =
    byte n 0 ∷ byte n 1 ∷ byte n 2 ∷ byte n 3 ∷ byte n 4 ∷ byte n 5 ∷ byte n 6 ∷ byte n 7 ∷ []

storage8-be : (n : ℕ) → storage8 (uint64be_to_host n) ≡ reverse (storage8 n)
storage8-be n = rw (uint64be_sum n) (ground arith)

uint64be_twice : (n : ℕ) → n < 2 ^ 64 → uint64be_to_host (uint64be_to_host n) ≡ n
uint64be_twice n h = omega (arith, uint64be_sum n, uint64be_sum (uint64be_to_host n))

int64be_eq : (n : ℕ) → int64be_to_host n ≡ uint64be_to_host n
unfolding int64be_to_host uint64be_to_host
int64be_eq n = ap u64 (uint64be_sum n) ∙ omega (arith, uint64be_sum n)

int64be_twice : (n : ℕ) → n < 2 ^ 64 → int64be_to_host (int64be_to_host n) ≡ n
int64be_twice n h = rw (int64be_eq n, int64be_eq (uint64be_to_host n)) (uint64be_twice n h)

-- On this little-endian host the six little-endian conversions give every word of their width back,
-- signed patterns included.
pub to_host-le :
    (n : ℕ)
    → (uint16le_to_host (u16 n) ≡ u16 n)
      × (int16le_to_host (u16 n) ≡ u16 n)
      × (uint32le_to_host (u32 n) ≡ u32 n)
      × (int32le_to_host (u32 n) ≡ u32 n)
      × (uint64le_to_host (u64 n) ≡ u64 n)
      × (int64le_to_host (u64 n) ≡ u64 n)
unfolding int16le_to_host int32le_to_host int64le_to_host uint16le_to_host uint32le_to_host
    uint64le_to_host
to_host-le n = (
  omega (arith, uint16le_sum (u16 n)),
  ap u16 (uint16le_sum (u16 n)) ∙ omega arith,
  omega (arith, uint32le_sum (u32 n)),
  ap u32 (uint32le_sum (u32 n)) ∙ omega arith,
  omega (arith, uint64le_sum (u64 n)),
  ap u64 (uint64le_sum (u64 n)) ∙ omega arith,
)

-- The six big-endian conversions are their own inverses on words of their width, so the
-- `host_to_...be` macros, which call the same functions, undo them.
pub to_host-be_involutive :
    (n : ℕ)
    → (uint16be_to_host (uint16be_to_host (u16 n)) ≡ u16 n)
      × (int16be_to_host (int16be_to_host (u16 n)) ≡ u16 n)
      × (uint32be_to_host (uint32be_to_host (u32 n)) ≡ u32 n)
      × (int32be_to_host (int32be_to_host (u32 n)) ≡ u32 n)
      × (uint64be_to_host (uint64be_to_host (u64 n)) ≡ u64 n)
      × (int64be_to_host (int64be_to_host (u64 n)) ≡ u64 n)
to_host-be_involutive n = (
  uint16be_twice (u16 n) (omega arith),
  int16be_twice (u16 n) (omega arith),
  uint32be_twice (u32 n) (omega arith),
  int32be_twice (u32 n) (omega arith),
  uint64be_twice (u64 n) (omega arith),
  int64be_twice (u64 n) (omega arith),
)

-- Each of the six big-endian conversions turns the bytes of the word's storage round.
pub to_host-be_reverse :
    (n : ℕ)
    → (storage2 (uint16be_to_host n) ≡ reverse (storage2 n))
      × (storage2 (int16be_to_host n) ≡ reverse (storage2 n))
      × (storage4 (uint32be_to_host n) ≡ reverse (storage4 n))
      × (storage4 (int32be_to_host n) ≡ reverse (storage4 n))
      × (storage8 (uint64be_to_host n) ≡ reverse (storage8 n))
      × (storage8 (int64be_to_host n) ≡ reverse (storage8 n))
to_host-be_reverse n = (
  storage2-be n,
  rw (int16be_eq n) (storage2-be n),
  storage4-be n,
  rw (int32be_eq n) (storage4-be n),
  storage8-be n,
  rw (int64be_eq n) (storage8-be n),
)
