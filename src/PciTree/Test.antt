-- ===== src/PciTree/Test.antt =====
-- nop/tree/pci.c: what a round of the scan finds in one slot.
use mathlib.Core.List.{append_assoc, append-nil}
use nop.Base.{
  Bool-cases, inl, inr, ℕ, zero, suc, ◌+◌, ◌*◌, ◌^◌, ◌<◌, ◌≡◌, refl, ◌∙◌, ap, sym, arith, true,
  false, Memory, List, [], ◌∷◌, ◌++◌, map, leb, ◌==◌, u16, ◌<<<◌,
}
use nop.Base.Int.{ℤ, pos}
use nop.Api.{Feature, SeekMode, seek_set}
use nop.PciTree.{PciDevice, read_ids, read_header_type, pci_push, test_loop}
use nop.PciTree.Space.{
  run_gone, run_there, slot_gone, slot_only, slot_many, IsSpace, vendor, is_gone, run,
  slot_functions, device_at,
}

module _ {W : Type 0} (id : ℕ) (device_feature : ℕ → Feature → W → ℕ)
    (device_seek : ℕ → ℤ → SeekMode → W → W) (device_read : ℕ → Memory → ℕ → ℕ → W → W × Memory × ℕ)
    (device_write : ℕ → Memory → ℕ → ℕ → W → W × ℕ) (junk : Memory) (space : W → Memory)
    (position : W → ℕ) (d : IsSpace id device_seek device_read space position) (m : Memory) where
  -- A call that leaves the space `m` as it was and answers `answer`.
  pub record Answers {A : Type 0} (r : W × A) (answer : A) : Type 0 where
    pub answers : r.1 ≡ answer
    pub kept : space r.0 ≡ m

  read_ids-Answers :
      (addr : ℕ) (w : W)
      → addr < 2 ^ 16
      → space w ≡ m
      → Answers
          (read_ids device_feature device_seek device_read device_write junk id (addr * 256) w)
          (vendor m addr)
  unfolding read_ids
  read_ids-Answers addr w small is_m =
      let w0 = device_seek id (pos (addr * 256)) seek_set w in
      let (at0, kept0) = d.seeks (addr * 256) w (omega arith) in
      let (w1, read1, n1) = device_read id junk 0 2 w0 in
      let (at1, kept1, bytes1) = d.reads junk 0 2 w0 (omega arith) in
      let (at2, kept2, bytes2) = d.reads junk 0 2 w1 (omega arith) in
      let from : space w0 ≡ m = kept0 ∙ is_m in
      let low : read1 0 ≡ m (addr * 256) =
        bytes1 0 (omega arith)
        ∙ ap (space w0) (omega arith)
        ∙ ap (λ (x : Memory). x (addr * 256)) from in
      let high : read1 1 ≡ m (addr * 256 + 1) =
        bytes1 1 (omega arith)
        ∙ ap (space w0) (omega arith)
        ∙ ap (λ (x : Memory). x (addr * 256 + 1)) from in
      record { answers = rw (low, high) refl; kept = kept2 ∙ kept1 ∙ from }

  read_header_type-Answers :
      (addr : ℕ) (w : W)
      → addr < 2 ^ 16
      → space w ≡ m
      → Answers
          (read_header_type device_feature device_seek device_read device_write junk id
            (addr * 256)
            w)
          (m (addr * 256 + 0x0E))
  unfolding read_header_type
  read_header_type-Answers addr w small is_m =
      let offset = addr * 256 + 0x0E in
      let w0 = device_seek id (pos offset) seek_set w in
      let (at0, kept0) = d.seeks offset w (omega arith) in
      let (at1, kept1, bytes1) = d.reads junk 0 1 w0 (omega arith) in
      let from : space w0 ≡ m = kept0 ∙ is_m in
      record {
        answers =
            (bytes1 0 (omega arith)
              ∙ ap (space w0) (omega arith)
              ∙ ap (λ (x : Memory). x offset) from);
        kept = kept1 ∙ from;
      }

  abbrev pub loop : ℕ → ℕ → ℕ → List PciDevice → W → W × List PciDevice
  loop left i addr devices w =
      test_loop device_feature device_seek device_read device_write junk id left i addr devices w

  abbrev ids : ℕ → W → W × ℕ
  ids addr w = read_ids device_feature device_seek device_read device_write junk id (addr <<< 8) w

  abbrev header_type : ℕ → W → W × ℕ
  header_type addr w =
      read_header_type device_feature device_seek device_read device_write junk id (addr <<< 8) w

  module _ (left addr : ℕ) (devices : List PciDevice) (w : W) where
    abbrev w1 : W
    w1 = (ids addr w).0

    step_gone :
        (i : ℕ)
        → ((ids addr w).1 == 0xFFFF) ≡ true
        → loop (suc left) i addr devices w ≡ loop left (i + 1) addr devices w1
    unfolding test_loop
    step_gone i gone = rw (gone, test_loop) refl

    step_later :
        (i : ℕ)
        → (i == 0) ≡ false
        → ((ids addr w).1 == 0xFFFF) ≡ false
        → loop (suc left) i addr devices w
          ≡ loop left (i + 1) (u16 (addr + 1)) (pci_push id devices addr) w1
    unfolding test_loop
    step_later i ne there = rw (there, ne, test_loop) refl

    step_only :
        ((ids addr w).1 == 0xFFFF) ≡ false
        → leb 0x80 (header_type addr w1).1 ≡ false
        → loop (suc left) 0 addr devices w ≡ ((header_type addr w1).0, pci_push id devices addr)
    unfolding test_loop
    step_only there one = rw (there, one, test_loop) refl

    step_first :
        ((ids addr w).1 == 0xFFFF) ≡ false
        → leb 0x80 (header_type addr w1).1 ≡ true
        → loop (suc left) 0 addr devices w
          ≡ loop left 1 (u16 (addr + 1)) (pci_push id devices addr) (header_type addr w1).0
    unfolding test_loop
    step_first there many = rw (there, many, test_loop) refl

  pub transport-Answers :
      {A : Type 0} {r r' : W × A} {answer answer' : A}
      → r ≡ r'
      → answer ≡ answer'
      → Answers r' answer'
      → Answers r answer
  transport-Answers e e' a = rw (e, e') a

  loop_gone :
      (left i addr : ℕ) (devices : List PciDevice) (w : W)
      → addr < 2 ^ 16
      → space w ≡ m
      → is_gone m addr ≡ true
      → Answers (loop left i addr devices w) devices
  loop_gone zero i addr devices w small is_m gone =
      unfold test_loop in record { answers = refl; kept = is_m }
  loop_gone (suc left) i addr devices w small is_m gone =
      let a = read_ids-Answers addr w small is_m in
      transport-Answers
        (step_gone left addr devices w i (ap (λ (v : ℕ). v == 0xFFFF) a.answers ∙ gone)) refl
        (loop_gone left (i + 1) addr devices (ids addr w).0 small a.kept gone)

  -- The devices of functions, behind the devices there are.
  abbrev pub appended : List PciDevice → List ℕ → List PciDevice
  appended devices found = devices ++ map (device_at id) found

  push-appended :
      (devices : List PciDevice) (addr : ℕ) (found : List ℕ)
      → appended (pci_push id devices addr) found ≡ appended devices (addr ∷ found)
  unfolding pci_push
  push-appended devices addr found =
      append_assoc devices (device_at id addr ∷ []) (map (device_at id) found)

  loop-run :
      (left i addr : ℕ) (devices : List PciDevice) (w : W)
      → addr < 2 ^ 16
      → (0 < i)
      → space w ≡ m
      → Answers (loop left i addr devices w) (appended devices (run m addr left))
  loop-run zero i addr devices w small later is_m =
      unfold test_loop run in record { answers = sym (append-nil devices); kept = is_m }
  loop-run (suc left) i addr devices w small later is_m = elim (Bool-cases (is_gone m addr)) [
    | inl gone ↦
        transport-Answers refl
          (ap (appended devices) (run_gone m addr left gone) ∙ append-nil devices)
          (loop_gone (suc left) i addr devices w small is_m gone)
    | inr there ↦
        let a = read_ids-Answers addr w small is_m in
        let next = u16 (addr + 1) in
        transport-Answers
          (step_later left addr devices w i (ground arith)
            (ap (λ (v : ℕ). v == 0xFFFF) a.answers ∙ there))
          (ap (appended devices) (run_there m addr left there)
            ∙ sym (push-appended devices addr (run m next left)))
          (loop-run left (i + 1) next (pci_push id devices addr) (ids addr w).0 (omega arith)
            (omega arith) a.kept)
  ]

  pub loop-slot_functions :
      (addr : ℕ) (devices : List PciDevice) (w : W)
      → addr < 2 ^ 16
      → space w ≡ m
      → Answers (loop 8 0 addr devices w) (appended devices (slot_functions m addr))
  loop-slot_functions addr devices w small is_m =
      let a = read_ids-Answers addr w small is_m in
      let h = read_header_type-Answers addr (ids addr w).0 small a.kept in
      let header_bit = ap (leb 0x80) h.answers in
      let next = u16 (addr + 1) in
      elim (Bool-cases (is_gone m addr)) [
        | inl gone ↦
            transport-Answers refl
              (ap (appended devices) (slot_gone m addr gone) ∙ append-nil devices)
              (loop_gone 8 0 addr devices w small is_m gone)
        | inr there ↦
            let there' = ap (λ (v : ℕ). v == 0xFFFF) a.answers ∙ there in
            elim (Bool-cases (leb 0x80 (m (addr * 256 + 0x0E)))) [
              | inl many ↦
                  transport-Answers (step_first 7 addr devices w there' (header_bit ∙ many))
                    (ap (appended devices) (slot_many m addr there many)
                      ∙ sym (push-appended devices addr (run m next 7)))
                    (loop-run 7 1 next (pci_push id devices addr)
                      (header_type addr (ids addr w).0).0 (omega arith) (omega arith) h.kept)
              | inr one ↦
                  transport-Answers (step_only 7 addr devices w there' (header_bit ∙ one))
                    (ap (appended devices) (slot_only m addr there one)
                      ∙ sym (push-appended devices addr [])
                      ∙ append-nil (pci_push id devices addr))
                    (record { answers = refl; kept = h.kept })
            ]
      ]
