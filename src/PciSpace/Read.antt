-- ===== src/PciSpace/Read.antt =====
-- nop/arch/i386/tasks/pci.c: reads against the bytes of the space.
use mathlib.Core.Path.{subst}
use nop.Base.{
  ℕ, zero, suc, ◌+◌, ◌-◌, ◌*◌, ◌/◌, ◌%◌, ◌^◌, ◌≤◌, ◌<◌, ◌≡◌, refl, sym, ap, ◌∙◌, arith, false, ◌==◌,
  if◌then◌else◌, min, Memory, write, IsBytes, Bool-cases, inl, inr, ◌>>>◌,
}
use nop.Base.Dwords.{load32, store32, store32-load32}
use nop.CString.Copy.{copied}
use nop.Endian.{byte}
use nop.PciSpace.{
  Transfer, size, clip, take_head, take_tail, read_head, read_body, read_tail, pci_device_read,
  pci_dword_read,
}
use nop.PciSpace.Address.{IsConfig, pci_dword_read_lem, byte-load32}

-- How many bytes there are up to the next word.
abbrev pub head : ℕ → ℕ → ℕ
head o n = if o % 4 == 0 then 0 else min n (4 - o % 4)

-- A transfer `k` bytes later.
abbrev pub advance : Transfer → ℕ → Transfer
advance t k = record { offset = t.offset + k; ptr = t.ptr + k; n = t.n - k }

-- `k` bytes of `value`, whose storage holds those of `src` at `o`, moved to `dst`.
abbrev Moves : Memory → Memory → Transfer → ℕ → Memory × Transfer → Type 0
Moves src dst t k out =
    ((a : ℕ) → out.0 a ≡ copied src dst t.ptr t.offset k a) × (out.1 ≡ advance t k)

take_head-Moves :
    (n value o p : ℕ) (src dst : Memory)
    → ((j : ℕ) → o ≤ j → j < o + head o n → byte value (j % 4) ≡ src j)
    → Moves src dst (record { offset = o; ptr = p; n = n }) (head o n) (take_head n value dst o p)
unfolding take_head
take_head-Moves zero value o p src dst h = (λ a. ground arith, ground arith)
take_head-Moves (suc n) value o p src dst h = elim (Bool-cases (o % 4 == 0)) [
  | inl start ↦ rw (start, take_head) (λ a. ground arith, ground arith)
  | inr inside ↦
      let k : head o (suc n) ≡ suc (head (o + 1) n) = ground arith in
      let ih =
        take_head-Moves n value (o + 1) (p + 1) src (write dst p (byte value (o % 4)))
          (λ j hj lt. h j (omega arith) (omega (arith, k))) in
      rw (inside, take_head) (λ a. ground (arith, ih.0 a, k, h o), ground (arith, ih.1, k))
]

take_tail-Moves :
    (n value o p : ℕ) (src dst : Memory)
    → ((j : ℕ) → o ≤ j → j < o + n → byte value (j % 4) ≡ src j)
    → Moves src dst (record { offset = o; ptr = p; n = n }) n (take_tail n value dst o p)
unfolding take_tail
take_tail-Moves zero value o p src dst h = (λ a. ground arith, ground arith)
take_tail-Moves (suc n) value o p src dst h =
    let ih =
      take_tail-Moves n value (o + 1) (p + 1) src (write dst p (byte value (o % 4)))
        (λ j hj lt. h j (omega arith) (omega arith)) in
    (λ a. ground (arith, ih.0 a, h o), ground (arith, ih.1))

-- Bytes of one word.
same_word :
    (mem : Memory) (o j : ℕ)
    → IsBytes mem
    → j / 4 ≡ o / 4
    → byte (load32 mem (4 * (o / 4))) (j % 4) ≡ mem j
same_word mem o j b e = byte-load32 mem (4 * (o / 4)) (j % 4) b (omega arith) ∙ ap mem (omega arith)

pub clip-min : (offset n : ℕ) → offset ≤ size → clip offset n ≡ min n (size - offset)
unfolding clip
clip-min offset n h = ground arith

module _ {W : Type 0} (outd : ℕ → ℕ → W → W) (ind : ℕ → W → W × ℕ) (space : W → Memory)
    (c : IsConfig outd ind space) where
  -- `k` bytes of the space have been read.
  pub record IsRead (w : W) (dst : Memory) (t : Transfer) (k : ℕ) (out : W × Memory × Transfer)
      : Type 0 where
    pub kept : space out.0 ≡ space w
    pub bytes : (a : ℕ) → out.1 a ≡ copied (space w) dst t.ptr t.offset k a
    pub rest : out.2 ≡ advance t k

  IsRead-then :
      (w : W) (dst : Memory) (t : Transfer) (k l : ℕ) {mid out : W × Memory × Transfer}
      → IsRead w dst t k mid
      → IsRead mid.0 mid.1 mid.2 l out
      → IsRead w dst t (k + l) out
  IsRead-then w dst t k l {mid} {out} r s = record {
    kept = s.kept ∙ r.kept;
    bytes = λ a. s.bytes a ∙ (rw r.kept (rw r.rest (ground (arith, r.bytes a))));
    rest = s.rest ∙ ground (arith, r.rest);
  }

  read_head_inside :
      (w : W) (dst : Memory) (t : Transfer)
      → (t.offset % 4 == 0) ≡ false
      → read_head outd ind dst t w ≡ (
          let (w', value) = pci_dword_read outd ind (t.offset >>> 8) t.offset w in
          let (dst', t') = take_head t.n value dst t.offset t.ptr in (w', dst', t'))
  unfolding read_head
  read_head_inside w dst t e = rw e refl

  read_head-IsRead :
      (w : W) (dst : Memory) (t : Transfer)
      → t.offset ≤ 2 ^ 24
      → IsRead w dst t (head t.offset t.n) (read_head outd ind dst t w)
  read_head-IsRead w dst t h = elim (Bool-cases (t.offset % 4 == 0)) [
    | inl start ↦
        unfold read_head in
        rw start (record { kept = refl; bytes = λ a. ground arith; rest = ground arith })
    | inr inside ↦
        let (loaded, kept) = pci_dword_read_lem c w t.offset (ground arith) in
        let moves =
          take_head-Moves t.n (pci_dword_read outd ind (t.offset >>> 8) t.offset w).1 t.offset t.ptr
            (space w) dst
            (λ j hj lt.
              ap (λ v. byte v (j % 4)) loaded
              ∙ same_word (space w) t.offset j (c.bytes w) (ground arith)) in
        subst (IsRead w dst t (head t.offset t.n)) (sym (read_head_inside w dst t inside))
          (record { kept = kept; bytes = moves.0; rest = moves.1 })
  ]

  one_word :
      (w : W) (dst : Memory) (t : Transfer)
      → t.offset % 4 ≡ 0
      → t.offset < 2 ^ 24
      → let (w', value) = pci_dword_read outd ind (t.offset >>> 8) t.offset w in
        IsRead w dst t 4 (w', store32 dst t.ptr value, advance t 4)
  one_word w dst t e h =
      let (loaded, kept) = pci_dword_read_lem c w t.offset h in
      let at : 4 * (t.offset / 4) ≡ t.offset = omega arith in
      record {
        kept = kept;
        bytes = λ a.
            rw (loaded, at)
              (store32-load32 dst (space w) t.ptr t.offset a (c.bytes w) ∙ ground arith);
        rest = refl;
      }

  read_body-IsRead :
      (rounds : ℕ) (w : W) (dst : Memory) (t : Transfer)
      → (0 < rounds → t.offset % 4 ≡ 0)
      → t.offset + 4 * rounds ≤ 2 ^ 24
      → IsRead w dst t (4 * rounds) (read_body outd ind rounds dst t w)
  unfolding read_body
  read_body-IsRead zero w dst t e h = record {
    kept = refl;
    bytes = λ a. ground arith;
    rest = ground arith;
  }
  read_body-IsRead (suc rounds) w dst t e h =
      let (w', value) = pci_dword_read outd ind (t.offset >>> 8) t.offset w in
      let ih =
        read_body-IsRead rounds w' (store32 dst t.ptr value) (advance t 4)
          (λ u. omega (arith, e (omega arith))) (omega arith) in
      let both =
        IsRead-then w dst t 4 (4 * rounds) (one_word w dst t (e (omega arith)) (omega arith)) ih in
      subst (λ k. IsRead w dst t k (read_body outd ind (suc rounds) dst t w)) (omega arith) both

  read_tail_more :
      (w : W) (dst : Memory) (t : Transfer)
      → (t.n % 4 == 0) ≡ false
      → read_tail outd ind dst t w ≡ (
          let (w', value) = pci_dword_read outd ind (t.offset >>> 8) t.offset w in
          let (dst', t') = take_tail t.n value dst t.offset t.ptr in (w', dst', t'))
  unfolding read_tail
  read_tail_more w dst t e = rw e refl

  read_tail-IsRead :
      (w : W) (dst : Memory) (t : Transfer)
      → t.n < 4
      → (0 < t.n → t.offset % 4 ≡ 0)
      → t.offset + t.n ≤ 2 ^ 24
      → IsRead w dst t t.n (read_tail outd ind dst t w)
  read_tail-IsRead w dst t short e h = elim (Bool-cases (t.n % 4 == 0)) [
    | inl done ↦
        let none_left : t.n ≡ 0 = ground arith in
        unfold read_tail in
        rw none_left (record { kept = refl; bytes = λ a. ground arith; rest = ground arith })
    | inr more ↦
        let some_left : 0 < t.n = ground arith in
        let (loaded, kept) = pci_dword_read_lem c w t.offset (omega arith) in
        let moves =
          take_tail-Moves t.n (pci_dword_read outd ind (t.offset >>> 8) t.offset w).1 t.offset t.ptr
            (space w) dst
            (λ j hj lt.
              ap (λ v. byte v (j % 4)) loaded
              ∙ same_word (space w) t.offset j (c.bytes w) (omega (arith, e some_left))) in
        subst (IsRead w dst t t.n) (sym (read_tail_more w dst t more))
          (record { kept = kept; bytes = moves.0; rest = moves.1 })
  ]

  -- From any offset in the space, a read copies to the buffer the bytes asked for, cut to the rest of
  -- the space, changes no other byte of the buffer, moves the offset behind them, and leaves the
  -- space as it was.
  pub pci_device_read-copied :
      (offset ptr n : ℕ) (dst : Memory) (w : W)
      → offset ≤ size
      → let (w', dst', offset') = pci_device_read outd ind offset dst ptr n w in
        let done = min n (size - offset) in
        ((a : ℕ) → dst' a ≡ copied (space w) dst ptr offset done a)
        × (offset' ≡ offset + done)
        × (space w' ≡ space w)
  unfolding pci_device_read
  pci_device_read-copied offset ptr n dst w h =
      let t : Transfer = record { offset = offset; ptr = ptr; n = clip offset n } in
      let k = head offset (clip offset n) in
      let all = clip-min offset n h in
      let m1 = read_head outd ind dst t w in
      let r1 = read_head-IsRead w dst t h in
      let at1 = ap (λ (u : Transfer). u.offset) r1.rest in
      let left1 = ap (λ (u : Transfer). u.n) r1.rest in
      let rounds = m1.2.n / 4 in
      let aligned : 0 < m1.2.n → m1.2.offset % 4 ≡ 0 = λ u. ground (arith, at1, left1) in
      let r2 =
        read_body-IsRead rounds m1.0 m1.1 m1.2 (λ u. aligned (omega arith))
          (ground (arith, at1, left1, all)) in
      let m2 = read_body outd ind rounds m1.1 m1.2 m1.0 in
      let at2 = ap (λ (u : Transfer). u.offset) r2.rest in
      let left2 = ap (λ (u : Transfer). u.n) r2.rest in
      let r3 =
        read_tail-IsRead m2.0 m2.1 m2.2 (omega (arith, left2))
          (λ u. omega (arith, at2, left2, aligned (omega (arith, left2))))
          (ground (arith, at1, left1, at2, left2, all)) in
      let r =
        IsRead-then w dst t k (4 * rounds + m2.2.n) r1
          (IsRead-then m1.0 m1.1 m1.2 (4 * rounds) m2.2.n r2 r3) in
      let count : k + (4 * rounds + m2.2.n) ≡ min n (size - offset) =
        ground (arith, left1, left2, all) in
      (λ a. rw (← count) (r.bytes a), rw (← count) (ap (λ (u : Transfer). u.offset) r.rest), r.kept)
