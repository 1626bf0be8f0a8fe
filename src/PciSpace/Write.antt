-- ===== src/PciSpace/Write.antt =====
-- nop/arch/i386/tasks/pci.c: writes against the bytes of the space, from a word boundary.
use mathlib.Core.Path.{subst}
use nop.Base.{
  ℕ, zero, suc, ◌+◌, ◌-◌, ◌*◌, ◌/◌, ◌%◌, ◌≤◌, ◌<◌, ◌≡◌, refl, sym, ap, ◌∙◌, arith, true, false,
  ◌==◌, min, Memory, write, IsBytes, Bool-cases, inl, inr, ◌>>>◌,
}
use nop.Base.Dwords.{load32, store32-load32}
use nop.CString.Copy.{copied}
use nop.Endian.{byte}
use nop.PciSpace.{
  Transfer, size, clip, fill_tail, write_head, write_body, write_tail, pci_device_write,
  pci_dword_read, pci_dword_write,
}
use nop.PciSpace.Address.{IsConfig, IsPlain, pci_dword_read_lem, pci_dword_write_lem, byte-load32}
use nop.PciSpace.Read.{advance, clip-min}

-- `value` with the bytes of `src` put over those of the tail.
fill_tail_lem :
    (n o p : ℕ) (src bytes : Memory)
    → o % 4 + n ≤ 4
    → let (bytes', t') = fill_tail n src bytes o p in
      ((i : ℕ) → bytes' i ≡ copied src bytes (o % 4) p n i)
      × (t' ≡ record { offset = o + n; ptr = p + n; n = 0 })
unfolding fill_tail
fill_tail_lem zero o p src bytes h = (λ i. ground arith, ground arith)
fill_tail_lem (suc zero) o p src bytes h = (λ i. ground arith, ground arith)
fill_tail_lem (suc (suc n)) o p src bytes h =
    let ih =
      fill_tail_lem (suc n) (o + 1) (p + 1) src (write bytes (o % 4) (src p)) (omega arith) in
    (λ i. ground (arith, ih.0 i), ground (arith, ih.1))

module _ {W : Type 0} (outd : ℕ → ℕ → W → W) (ind : ℕ → W → W × ℕ) (space : W → Memory) (lo hi : ℕ)
    (c : IsConfig outd ind space) (p : IsPlain outd space lo hi) where
  -- `k` bytes of the space have been written.
  pub record IsWritten (w : W) (src : Memory) (t : Transfer) (k : ℕ) (out : W × Transfer)
      : Type 0 where
    pub bytes : (a : ℕ) → space out.0 a ≡ copied src (space w) t.offset t.ptr k a
    pub rest : out.1 ≡ advance t k

  IsWritten-then :
      (w : W) (src : Memory) (t : Transfer) (k l : ℕ) {mid out : W × Transfer}
      → IsWritten w src t k mid
      → IsWritten mid.0 src mid.1 l out
      → IsWritten w src t (k + l) out
  IsWritten-then w src t k l {mid} {out} r s = record {
    bytes = λ a. s.bytes a ∙ rw r.rest (ground (arith, r.bytes a));
    rest = s.rest ∙ ground (arith, r.rest);
  }

  word-IsWritten :
      (w : W) (src : Memory) (t : Transfer)
      → IsBytes src
      → t.offset % 4 ≡ 0
      → lo ≤ t.offset
      → t.offset < hi
      → IsWritten w src t 4
          (pci_dword_write outd ind (t.offset >>> 8) t.offset (load32 src t.ptr) w, advance t 4)
  word-IsWritten w src t b e low h =
      let at : 4 * (t.offset / 4) ≡ t.offset = omega arith in
      record {
        bytes = λ a.
            pci_dword_write_lem outd ind p w t.offset (load32 src t.ptr) a (omega arith) h
            ∙ rw at (store32-load32 (space w) src t.offset t.ptr a b ∙ ground arith);
        rest = refl;
      }

  write_body-IsWritten :
      (rounds : ℕ) (w : W) (src : Memory) (t : Transfer)
      → IsBytes src
      → (0 < rounds → t.offset % 4 ≡ 0)
      → lo ≤ t.offset
      → t.offset + 4 * rounds ≤ hi
      → IsWritten w src t (4 * rounds) (write_body outd ind rounds src t w)
  unfolding write_body
  write_body-IsWritten zero w src t b e low h = record {
    bytes = λ a. ground arith;
    rest = ground arith;
  }
  write_body-IsWritten (suc rounds) w src t b e low h =
      let w' = pci_dword_write outd ind (t.offset >>> 8) t.offset (load32 src t.ptr) w in
      let ih =
        write_body-IsWritten rounds w' src (advance t 4) b (λ u. omega (arith, e (omega arith)))
          (omega arith) (omega arith) in
      subst (λ k. IsWritten w src t k (write_body outd ind (suc rounds) src t w)) (omega arith)
        (IsWritten-then w src t 4 (4 * rounds)
          (word-IsWritten w src t b (e (omega arith)) (omega arith) (omega arith)) ih)

  -- The word of `o` with `n` bytes of `src` over its first.
  word_merged :
      (w w' : W) (src bytes : Memory) (o ptr n value a : ℕ)
      → IsBytes src
      → n < 4
      → o % 4 ≡ 0
      → lo ≤ o
      → o + n < hi
      → value ≡ load32 (space w) (4 * (o / 4))
      → space w' ≡ space w
      → ((i : ℕ) → bytes i ≡ copied src (byte value) (o % 4) ptr n i)
      → space (pci_dword_write outd ind ((o + n) >>> 8) (o + n) (load32 bytes 0) w') a
        ≡ copied src (space w) o ptr n a
  word_merged w w' src bytes o ptr n value a b short e low h loaded kept filled =
      let at : 4 * ((o + n) / 4) ≡ o = omega arith in
      let start : 4 * (o / 4) ≡ o = omega arith in
      let old = λ (i : ℕ) (lt : i < 4).
        ap (λ v. byte v i) loaded
        ∙ byte-load32 (space w) (4 * (o / 4)) i (c.bytes w) lt
        ∙ ap (λ j. space w (j + i)) start in
      pci_dword_write_lem outd ind p w' (o + n) (load32 bytes 0) a (omega arith) h
      ∙ rw (at, kept)
          (store32-load32 (space w) bytes o 0 a
              (λ i. ground (arith, filled i, b (ptr + (i - o % 4))))
            ∙ ground (
              arith,
              filled 0,
              filled 1,
              filled 2,
              filled 3,
              old 0 (omega arith),
              old 1 (omega arith),
              old 2 (omega arith),
              old 3 (omega arith),
            ))

  write_tail_more :
      (w : W) (src : Memory) (t : Transfer)
      → (t.n % 4 == 0) ≡ false
      → write_tail outd ind src t w ≡ (
          let (w', value) = pci_dword_read outd ind (t.offset >>> 8) t.offset w in
          let (bytes, t') = fill_tail t.n src (byte value) t.offset t.ptr in
          (pci_dword_write outd ind (t'.offset >>> 8) t'.offset (load32 bytes 0) w', t'))
  unfolding write_tail
  write_tail_more w src t e = rw e refl

  write_tail-IsWritten :
      (w : W) (src : Memory) (t : Transfer)
      → IsBytes src
      → t.n < 4
      → (0 < t.n → t.offset % 4 ≡ 0)
      → lo ≤ t.offset
      → t.offset + t.n ≤ hi
      → IsWritten w src t t.n (write_tail outd ind src t w)
  write_tail-IsWritten w src t b short e low h = elim (Bool-cases (t.n % 4 == 0)) [
    | inl done ↦
        let none_left : t.n ≡ 0 = ground arith in
        unfold write_tail in
        rw none_left (record { bytes = λ a. ground arith; rest = ground arith })
    | inr more ↦
        let some_left : 0 < t.n = ground arith in
        let (w', value) = pci_dword_read outd ind (t.offset >>> 8) t.offset w in
        let (loaded, kept) = pci_dword_read_lem c w t.offset (omega (arith, p.inside)) in
        let (filled, moved) =
          fill_tail_lem t.n t.offset t.ptr src (byte value) (omega (arith, e some_left)) in
        subst (IsWritten w src t t.n) (sym (write_tail_more w src t more)) (record {
          bytes = λ a. rw moved (
              word_merged w w' src (fill_tail t.n src (byte value) t.offset t.ptr).0 t.offset t.ptr
                t.n value a b short (e some_left) low (omega (arith, e some_left, p.whole)) loaded
                kept filled);
          rest = moved ∙ ground arith;
        })
  ]

  rest-IsWritten :
      (w : W) (src : Memory) (t : Transfer)
      → IsBytes src
      → (0 < t.n → t.offset % 4 ≡ 0)
      → lo ≤ t.offset
      → t.offset + t.n ≤ hi
      → let (w', t') = write_body outd ind (t.n / 4) src t w in
        IsWritten w src t t.n (write_tail outd ind src t' w')
  rest-IsWritten w src t b e low h =
      let rounds = t.n / 4 in
      let (w', t') = write_body outd ind rounds src t w in
      let r = write_body-IsWritten rounds w src t b (λ u. e (omega arith)) low (omega arith) in
      let at = ap (λ (u : Transfer). u.offset) r.rest in
      let left = ap (λ (u : Transfer). u.n) r.rest in
      let r' =
        write_tail-IsWritten w' src t' b (omega (arith, left))
          (λ u. omega (arith, at, left, e (omega (arith, left)))) (omega (arith, at))
          (omega (arith, at, left)) in
      subst (λ k. IsWritten w src t k (write_tail outd ind src t' w')) (omega (arith, left))
        (IsWritten-then w src t (4 * rounds) t'.n r r')

  write_head_start :
      (w : W) (src : Memory) (t : Transfer)
      → (t.offset % 4 == 0) ≡ true
      → write_head outd ind src t w ≡ (w, t)
  unfolding write_head
  write_head_start w src t e = rw e refl

  -- From a word boundary, a write of which all the words, after the cut to the rest of the space, are
  -- registers that hold what is written to them puts there the bytes given, changes no other byte of the
  -- space, and moves the offset behind them.
  pub pci_device_write-copied :
      (offset ptr n : ℕ) (src : Memory) (w : W)
      → offset ≤ size
      → offset % 4 ≡ 0
      → lo ≤ offset
      → offset + min n (size - offset) ≤ hi
      → IsBytes src
      → let (w', offset') = pci_device_write outd ind offset src ptr n w in
        let done = min n (size - offset) in
        ((a : ℕ) → space w' a ≡ copied src (space w) offset ptr done a) × (offset' ≡ offset + done)
  unfolding pci_device_write
  pci_device_write-copied offset ptr n src w h e low high b =
      let t : Transfer = record { offset = offset; ptr = ptr; n = clip offset n } in
      let all = clip-min offset n h in
      let r = rest-IsWritten w src t b (λ u. e) low (omega (arith, all)) in
      let start = write_head_start w src t (ground arith) in
      (
        λ a. rw (start, pci_device_write) (rw (← all) (r.bytes a)),
        rw (start, pci_device_write) (rw (← all) (ap (λ (u : Transfer). u.offset) r.rest)),
      )
