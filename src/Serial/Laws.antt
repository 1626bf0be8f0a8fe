-- ===== src/Serial/Laws.antt =====
-- nop/arch/i386/tasks/serial.c: writes and reads of a port that gets ready end, in order.
use nop.Base.{
  ℕ, zero, suc, ◌+◌, ◌-◌, ◌<◌, ◌≤◌, ◌≡◌, ◌≢◌, refl, ap, sym, ◌∙◌, arith, true, false, inl, inr,
  Bool-cases, bit_and, some, List, [], ◌∷◌, ◌++◌, length, get_or, ltb, leb, ◌&&◌, ◌==◌,
  if◌then◌else◌, u16, Memory, write,
}
use mathlib.Core.List.{append_assoc, append-nil}
use nop.Serial.{
  serial_write_ready, serial_read_ready, wait_write, wait_read, serial_write, serial_read,
  write_loop, read_loop, serial_device_write, serial_device_read,
}

-- What the writer relies on: the line status is busy for `delay w` polls, at most `most` behind a byte
-- that is written, and a poll does not change what was sent.
pub record IsSender {W : Type 0} (inb : ℕ → W → W × ℕ) (outb : ℕ → ℕ → W → W) (port : ℕ)
    (sent : W → List ℕ) (delay : W → ℕ) (most : ℕ) : Type 0 where
  pub busy : (w : W) → delay w ≢ 0 → bit_and (inb (u16 (port + 5)) w).1 0x20 ≡ 0
  pub ready : (w : W) → delay w ≡ 0 → bit_and (inb (u16 (port + 5)) w).1 0x20 ≢ 0
  pub polled : (w : W) → delay (inb (u16 (port + 5)) w).0 ≡ delay w - 1
  pub same : (w : W) → sent (inb (u16 (port + 5)) w).0 ≡ sent w
  pub takes :
      (value : ℕ) (w : W) → delay w ≡ 0 → sent (outb value (port + 0) w) ≡ sent w ++ (value ∷ [])
  pub soon : (value : ℕ) (w : W) → delay (outb value (port + 0) w) ≤ most

-- The `n` bytes from `ptr` on.
unfoldable pub bytes_at : Memory → ℕ → ℕ → List ℕ
bytes_at mem ptr zero = []
bytes_at mem ptr (suc n) = mem ptr ∷ bytes_at mem (ptr + 1) n

module _ {W : Type 0} (inb : ℕ → W → W × ℕ) (outb : ℕ → ℕ → W → W) (port : ℕ) (sent : W → List ℕ)
    (delay : W → ℕ) (most : ℕ) (s : IsSender inb outb port sent delay most) where
  wait_write-ready :
      (fuel : ℕ) (w : W)
      → delay w < fuel
      → (w' : W) × (wait_write inb outb fuel port w ≡ some w') × (delay w' ≡ 0) × (sent w' ≡ sent w)
  unfolding wait_write serial_write_ready
  wait_write-ready zero w lt = absurd (omega arith)
  wait_write-ready (suc fuel) w lt =
      let next = (inb (u16 (port + 5)) w).0 in
      elim (Bool-cases (delay w == 0)) [
        | inl now ↦
            let z : delay w ≡ 0 = ground arith in
            let test : (bit_and (inb (u16 (port + 5)) w).1 0x20 == 0) ≡ false =
              grind (arith, s.ready w z) in
            (next, rw (test, wait_write) refl, omega (arith, s.polled w), s.same w)
        | inr later ↦
            let nz : delay w ≢ 0 = ground arith in
            let test : (bit_and (inb (u16 (port + 5)) w).1 0x20 == 0) ≡ true =
              ground (arith, s.busy w nz) in
            let (w', e, z, kept) = wait_write-ready fuel next (omega (arith, s.polled w)) in
            (w', rw (test, wait_write) e, z, kept ∙ s.same w)
      ]

  serial_write-sent :
      (fuel value : ℕ) (w : W)
      → delay w < fuel
      → (w' : W) × (serial_write inb outb fuel port value w ≡ some w')
        × (delay w' ≤ most)
        × (sent w' ≡ sent w ++ (value ∷ []))
  unfolding serial_write
  serial_write-sent fuel value w lt =
      let (w1, e, z, kept) = wait_write-ready fuel w lt in
      (
        outb value (port + 0) w1,
        rw (e, serial_write) refl,
        s.soon value w1,
        s.takes value w1 z ∙ ap (λ (xs : List ℕ). xs ++ (value ∷ [])) kept,
      )

  write_loop-sent :
      (n fuel : ℕ) (mem : Memory) (ptr : ℕ) (w : W)
      → most < fuel
      → delay w ≤ most
      → (w' : W) × (write_loop inb outb fuel port mem ptr n w ≡ some w')
        × (sent w' ≡ sent w ++ bytes_at mem ptr n)
  unfolding write_loop bytes_at
  write_loop-sent zero fuel mem ptr w lt le = (w, refl, sym (append-nil (sent w)))
  write_loop-sent (suc n) fuel mem ptr w lt le =
      let (w1, e, le1, one) = serial_write-sent fuel (mem ptr) w (omega arith) in
      let (w2, e2, all) = write_loop-sent n fuel mem (ptr + 1) w1 lt le1 in
      (
        w2,
        rw (e, write_loop) e2,
        all
            ∙ ap (λ (xs : List ℕ). xs ++ bytes_at mem (ptr + 1) n) one
            ∙ append_assoc (sent w) (mem ptr ∷ []) (bytes_at mem (ptr + 1) n),
      )

  -- If the port gets ready within `most` polls behind a byte, and polls do not disturb it, then a write to
  -- the port, with one poll more for each wait, ends, returns the number of bytes that it was asked for,
  -- and has sent exactly these bytes, in order.
  pub serial_device_write-sent :
      (n fuel : ℕ) (mem : Memory) (ptr : ℕ) (w : W)
      → most < fuel
      → delay w ≤ most
      → (w' : W) × (serial_device_write inb outb fuel port mem ptr n w ≡ some (w', n))
        × (sent w' ≡ sent w ++ bytes_at mem ptr n)
  unfolding serial_device_write
  serial_device_write-sent n fuel mem ptr w lt le =
      let (w1, e, all) = write_loop-sent n fuel mem ptr w lt le in
      (w1, rw (e, serial_device_write) refl, all)

-- What the reader relies on: the line status shows no data while nothing is on the way; if bytes are, it
-- shows none for `delay w` polls, at most `most`, and then the first; a poll does not disturb them, and a
-- read takes the first.
pub record IsReceiver {W : Type 0} (inb : ℕ → W → W × ℕ) (port : ℕ) (coming : W → List ℕ)
    (delay : W → ℕ) (most : ℕ) : Type 0 where
  pub busy : (w : W) → delay w ≢ 0 → bit_and (inb (u16 (port + 5)) w).1 0x01 ≡ 0
  pub nothing : (w : W) → coming w ≡ [] → bit_and (inb (u16 (port + 5)) w).1 0x01 ≡ 0
  pub ready :
      (w : W) (x : ℕ) (xs : List ℕ)
      → coming w ≡ x ∷ xs
      → delay w ≡ 0
      → bit_and (inb (u16 (port + 5)) w).1 0x01 ≢ 0
  pub polled :
      (w : W) (x : ℕ) (xs : List ℕ)
      → coming w ≡ x ∷ xs
      → delay (inb (u16 (port + 5)) w).0 ≡ delay w - 1
  pub same : (w : W) → coming (inb (u16 (port + 5)) w).0 ≡ coming w
  pub gives :
      (w : W) (x : ℕ) (xs : List ℕ)
      → delay w ≡ 0
      → coming w ≡ x ∷ xs
      → ((inb (port + 0) w).1 ≡ x) × (coming (inb (port + 0) w).0 ≡ xs)
  pub soon : (w : W) (x : ℕ) (xs : List ℕ) → coming w ≡ x ∷ xs → delay w ≤ most

-- The bytes `xs` from `ptr` on, and `mem` elsewhere.
unfoldable pub received : List ℕ → Memory → ℕ → ℕ → ℕ
received xs mem ptr a =
    if leb ptr a && ltb a (ptr + length xs) then get_or xs (a - ptr) 0 else mem a

received_next :
    (x : ℕ) (xs : List ℕ) (mem : Memory) (ptr a : ℕ)
    → received xs (write mem ptr x) (ptr + 1) a ≡ received (x ∷ xs) mem ptr a
unfolding received
received_next x xs mem ptr a = elim (Bool-cases (leb (ptr + 1) a)) [
  | inl behind ↦
      let step : a - ptr ≡ suc (a - (ptr + 1)) = ground arith in
      let same : get_or (x ∷ xs) (a - ptr) 0 ≡ get_or xs (a - (ptr + 1)) 0 =
        ap (λ (k : ℕ). get_or (x ∷ xs) k 0) step in
      ground (arith, same)
  | inr before ↦ elim (Bool-cases (ptr == a)) [
    | inl here ↦
        let step : a - ptr ≡ 0 = ground arith in
        let same : get_or (x ∷ xs) (a - ptr) 0 ≡ x = ap (λ (k : ℕ). get_or (x ∷ xs) k 0) step in
        ground (arith, same)
    | inr away ↦ ground arith
  ]
]

module _ {W : Type 0} (inb : ℕ → W → W × ℕ) (outb : ℕ → ℕ → W → W) (port : ℕ) (coming : W → List ℕ)
    (delay : W → ℕ) (most : ℕ) (r : IsReceiver inb port coming delay most) where
  wait_read-ready :
      (fuel : ℕ) (w : W) (x : ℕ) (xs : List ℕ)
      → delay w < fuel
      → coming w ≡ x ∷ xs
      → (w' : W) × (wait_read inb outb fuel port w ≡ some w')
        × (delay w' ≡ 0)
        × (coming w' ≡ x ∷ xs)
  unfolding wait_read serial_read_ready
  wait_read-ready zero w x xs lt e = absurd (omega arith)
  wait_read-ready (suc fuel) w x xs lt e =
      let next = (inb (u16 (port + 5)) w).0 in
      elim (Bool-cases (delay w == 0)) [
        | inl now ↦
            let z : delay w ≡ 0 = ground arith in
            let test : (bit_and (inb (u16 (port + 5)) w).1 0x01 == 0) ≡ false =
              grind (arith, r.ready w x xs e z) in
            (next, rw (test, wait_read) refl, omega (arith, r.polled w x xs e), r.same w ∙ e)
        | inr later ↦
            let nz : delay w ≢ 0 = ground arith in
            let test : (bit_and (inb (u16 (port + 5)) w).1 0x01 == 0) ≡ true =
              ground (arith, r.busy w nz) in
            let (w', found, z, kept) =
              wait_read-ready fuel next x xs (omega (arith, r.polled w x xs e)) (r.same w ∙ e) in
            (w', rw (test, wait_read) found, z, kept)
      ]

  serial_read-gives :
      (fuel : ℕ) (w : W) (x : ℕ) (xs : List ℕ)
      → most < fuel
      → coming w ≡ x ∷ xs
      → (w' : W) × (serial_read inb outb fuel port w ≡ some (w', x)) × (coming w' ≡ xs)
  unfolding serial_read
  serial_read-gives fuel w x xs lt e =
      let (w1, e1, z, kept) = wait_read-ready fuel w x xs (omega (arith, r.soon w x xs e)) e in
      let given = r.gives w1 x xs z kept in
      (
        (inb (port + 0) w1).0,
        rw (e1, serial_read) (ap (λ (v : ℕ). some ((inb (port + 0) w1).0, v)) given.0),
        given.1,
      )

  read_loop-received :
      (xs rest : List ℕ) (fuel : ℕ) (mem : Memory) (ptr : ℕ) (w : W)
      → most < fuel
      → coming w ≡ xs ++ rest
      → (w' : W) × (mem' : Memory) × (read_loop inb outb fuel port mem ptr (length xs) w
          ≡ some (w', mem'))
        × (coming w' ≡ rest)
        × ((a : ℕ) → mem' a ≡ received xs mem ptr a)
  unfolding read_loop received
  read_loop-received [] rest fuel mem ptr w lt e = (w, mem, refl, e, λ a. ground arith)
  read_loop-received (x ∷ xs) rest fuel mem ptr w lt e =
      let (w1, e1, after) = serial_read-gives fuel w x (xs ++ rest) lt e in
      let (w2, mem2, e2, left, all) =
        read_loop-received xs rest fuel (write mem ptr x) (ptr + 1) w1 lt after in
      (w2, mem2, rw (e1, read_loop) e2, left, λ a. all a ∙ received_next x xs mem ptr a)

  -- If bytes that are on the way come within `most` polls each, and polls do not disturb them, then a read
  -- of as many as are on the way or less, with one poll more for each wait, ends, returns their number, puts
  -- exactly the first of them, in order, in the buffer, and leaves the others on the way.
  pub serial_device_read-received :
      (xs rest : List ℕ) (fuel : ℕ) (mem : Memory) (ptr : ℕ) (w : W)
      → most < fuel
      → coming w ≡ xs ++ rest
      → (w' : W) × (mem' : Memory) × (serial_device_read inb outb fuel port mem ptr (length xs) w
          ≡ some ((w', mem'), length xs))
        × (coming w' ≡ rest)
        × ((a : ℕ) → mem' a ≡ received xs mem ptr a)
  unfolding serial_device_read
  serial_device_read-received xs rest fuel mem ptr w lt e =
      let (w1, mem1, e1, left, all) = read_loop-received xs rest fuel mem ptr w lt e in
      (w1, mem1, rw (e1, serial_device_read) refl, left, all)
