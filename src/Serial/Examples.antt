-- ===== src/Serial/Examples.antt =====
-- nop/arch/i386/tasks/serial.c: runs on a port that needs two polls for each byte, and the laws at it.
use nop.Base.{
  ℕ, ◌-◌, ◌≡◌, refl, ap, arith, Bool, true, false, Bool-cases, inl, inr, bit_and, none, some, List,
  [], ◌∷◌, ◌++◌, ◌==◌, if◌then◌else◌, Memory, of_list, codes,
}
use nop.Serial.{
  serial_write_ready, wait_write, serial_write, write_loop, serial_device_write, serial_device_read,
}
use nop.Serial.Laws.{
  IsSender, IsReceiver, bytes_at, received, serial_device_write-sent, serial_device_read-received,
}

record Port : Type 0 where
  line : List ℕ
  delay : ℕ

abbrev status : ℕ → ℕ
status d = if d == 0 then 0x21 else 0

abbrev head_of : List ℕ → ℕ
head_of [] = 0
head_of (x ∷ xs) = x

abbrev tail_of : List ℕ → List ℕ
tail_of [] = []
tail_of (x ∷ xs) = xs

-- The line status of the port 1000 at 1005, and its bytes at 1000.
abbrev input : ℕ → Port → Port × ℕ
input a w =
    if a == 1005
    then (record w { delay = w.delay - 1 }, status w.delay)
    else (record { line = tail_of w.line; delay = 2 }, head_of w.line)

abbrev output : ℕ → ℕ → Port → Port
output value a w = record { line = w.line ++ (value ∷ []); delay = 2 }

port-IsSender : IsSender input output 1000 (λ w. w.line) (λ w. w.delay) 2
port-IsSender = record {
  busy = λ w ne. ground arith;
  ready = λ w z. ground arith;
  polled = λ w. refl;
  same = λ w. refl;
  takes = λ value w z. refl;
  soon = λ value w. omega arith;
}

abbrev text : Memory
text = of_list (codes "boot")

abbrev idle : Port
idle = record { line = []; delay = 1 }

one_written :
    serial_device_write input output 3 1000 text 0 4 idle
    ≡ some (record { line = codes "boot"; delay = 2 }, 4)
unfolding serial_device_write write_loop serial_write wait_write serial_write_ready
one_written = refl

-- With one poll less the second byte is still waited for.
too_few_polls : serial_device_write input output 2 1000 text 0 4 idle ≡ none
unfolding serial_device_write write_loop serial_write wait_write serial_write_ready
too_few_polls = refl

serial_device_write-sent_example :
    (w' : Port) × (serial_device_write input output 3 1000 text 0 4 idle ≡ some (w', 4))
    × (w'.line ≡ [] ++ bytes_at text 0 4)
serial_device_write-sent_example =
    serial_device_write-sent input output 1000 (λ w. w.line) (λ w. w.delay) 2 port-IsSender 4 3 text
      0 idle (omega arith) (omega arith)

-- A line that is slow for one poll behind each byte, and shows nothing when it is empty.
record Line : Type 0 where
  bytes : List ℕ
  slow : Bool

abbrev line_status : List ℕ → Bool → ℕ
line_status [] slow = 0
line_status (x ∷ xs) slow = if slow then 0 else 0x21

abbrev line_input : ℕ → Line → Line × ℕ
line_input a w =
    if a == 1005
    then (record w { slow = false }, line_status w.bytes w.slow)
    else (record { bytes = tail_of w.bytes; slow = true }, head_of w.bytes)

abbrev line_delay : Line → ℕ
line_delay w = if w.slow then 1 else 0

line_status-some :
    (bytes : List ℕ) (slow : Bool) (x : ℕ) (xs : List ℕ)
    → bytes ≡ x ∷ xs
    → line_status bytes slow ≡ (if slow then 0 else 0x21)
line_status-some bytes slow x xs e = ap (λ (b : List ℕ). line_status b slow) e

line_status-slow : (bytes : List ℕ) → line_status bytes true ≡ 0
line_status-slow [] = refl
line_status-slow (x ∷ xs) = refl

line-IsReceiver : IsReceiver line_input 1000 (λ w. w.bytes) line_delay 1
line-IsReceiver = record {
  busy = λ w ne. elim (Bool-cases w.slow) [
    | inl slow ↦ rw slow (ap (λ (v : ℕ). bit_and v 0x01) (line_status-slow w.bytes))
    | inr fast ↦ absurd (ground arith)
  ];
  nothing = λ w e. ap (λ (b : List ℕ). bit_and (line_status b w.slow) 0x01) e;
  ready = λ w x xs e z. elim (Bool-cases w.slow) [
    | inl slow ↦ absurd (ground arith)
    | inr fast ↦ ground (arith, line_status-some w.bytes w.slow x xs e)
  ];
  polled = λ w x xs e. ground arith;
  same = λ w. refl;
  gives = λ w x xs z e. (ap head_of e, ap tail_of e);
  soon = λ w x xs e. ground arith;
}

serial_device_read-received_example :
    (w' : Line) × (mem' : Memory) × (serial_device_read line_input
        (λ value a w. w)
        2
        1000
        text
        1
        2
        (record { bytes = codes "xyz"; slow = true })
      ≡ some ((w', mem'), 2))
    × (w'.bytes ≡ codes "z")
    × ((a : ℕ) → mem' a ≡ received (codes "xy") text 1 a)
serial_device_read-received_example =
    serial_device_read-received line_input (λ value a w. w) 1000 (λ w. w.bytes) line_delay 1
      line-IsReceiver (codes "xy") (codes "z") 2 text 1
      (record { bytes = codes "xyz"; slow = true }) (omega arith) refl
