-- ===== src/Device/Suffix.antt =====
-- nop/device.c: the number that device_add puts behind a name.
use nop.Base.{
  ℕ, ◌+◌, ◌<◌, ◌≤◌, ◌≡◌, Bool, true, false, some, List, get_elem?, length, Memory, ◌&&◌, not, ◌==◌,
  u32,
}
use nop.Base.Int.{is_zero}
use nop.CString.{memcmp, isdigit}
use nop.Digits.{str_to_ulong}
use nop.Digits.Parse.{IsText}
use nop.Device.{Device, suffix_room}

abbrev count : List ℕ → ℕ
count chars = length chars

module _ {W : Type 0} (i : ℕ) (name : Memory) (length : ℕ) where
  -- Whether the device in slot `j` is another one whose name is this name and a digit.
  abbrev pub shares : ℕ → Device W → Bool
  shares j d = not (i == j) && (is_zero (memcmp name 0 d.name 0 length) && isdigit (d.name length))

  -- One more than the number behind that name.
  abbrev pub next : Device W → ℕ
  next d = u32 (str_to_ulong d.name 10 length (suffix_room length) + 1)

  -- `r` is the number after that of the last device that shares the name, or `v` if there is none; the
  -- slots are those from the `b`-th on.
  pub data IsLast (b v : ℕ) (slots : List (Device W)) (r : ℕ) : Type 0 where
    alone :
        ((j : ℕ) (d : Device W) → get_elem? slots j ≡ some d → shares (b + j) d ≡ false)
        → r ≡ v
        → IsLast b v slots r
    behind :
        (j : ℕ) {d : Device W}
        → get_elem? slots j ≡ some d
        → shares (b + j) d ≡ true
        → ((k : ℕ) (e : Device W) → j < k → get_elem? slots k ≡ some e → shares (b + k) e ≡ false)
        → r ≡ next d
        → IsLast b v slots r

  -- The name, the digits behind it, and the number that they are.
  pub record IsSuffixed (slots : List (Device W)) (chars : List ℕ) (out : Memory) : Type 0 where
    pub kept : (a : ℕ) → a < length → out a ≡ name a
    pub text : IsText out length chars
    pub short : count chars ≤ 10
    pub ended : length + count chars < 15 → out (length + count chars) ≡ 0
    pub last : IsLast 0 0 slots (str_to_ulong out 10 length (suffix_room length))
