-- ===== src/PciTree/Laws.antt =====
-- nop/tree/pci.c: the window of a function, and the names of the functions.
use nop.Base.{
  ◌≢◌, ◌==◌, false, fun_ext, ℕ, ◌+◌, ◌-◌, ◌*◌, ◌^◌, ◌<◌, ◌≤◌, ◌≡◌, refl, ◌∙◌, ap, arith, min,
  Memory, write, some, u16,
}
use nop.Base.Bits.{low_or_high}
use nop.Base.Int.{ℤ, pos}
use nop.Api.{Feature, SeekMode, seek_set}
use nop.Digits.{ulong_to_str_align, str_to_ulong}
use nop.Digits.RoundTrip.{ulong_to_str_align_lem}
use nop.PciTree.{PciDevice, clip, window_position, pci_device_read, pci_open, entry_name}
use nop.PciTree.Space.{IsSpace, device_at}

window_position_sum : (d : PciDevice) → d.offset < 256 → window_position d ≡ d.offset + d.addr * 256
unfolding window_position
window_position_sum d inside = low_or_high 8 d.addr d.offset inside

clip-min : (d : PciDevice) (n : ℕ) → d.offset ≤ 256 → clip d n ≡ min n (256 - d.offset)
unfolding clip
clip-min d n inside = ground arith

module _ {W : Type 0} (id : ℕ) (device_feature : ℕ → Feature → W → ℕ)
    (device_seek : ℕ → ℤ → SeekMode → W → W) (device_read : ℕ → Memory → ℕ → ℕ → W → W × Memory × ℕ)
    (device_write : ℕ → Memory → ℕ → ℕ → W → W × ℕ) (junk : Memory) (space : W → Memory)
    (position : W → ℕ) (s : IsSpace id device_seek device_read space position) where
  -- A read of the window of a function, from an offset inside it, copies to the buffer the bytes of the
  -- function from there on that were asked for, cut to the rest of the window, and
  -- changes no byte of the space.
  pub pci_device_read-window :
      (offset addr : ℕ) (dst : Memory) (ptr n : ℕ) (w : W)
      → offset < 256
      → addr < 2 ^ 16
      → let k = min n (256 - offset) in
        let r =
          pci_device_read device_feature device_seek device_read device_write junk
            (record { id = id; offset = offset; addr = addr })
            dst
            ptr
            n
            w in
        (space r.0 ≡ space w)
        × ((i : ℕ) → i < k → r.1 (ptr + i) ≡ space w (addr * 256 + offset + i))
  unfolding pci_device_read
  pci_device_read-window offset addr dst ptr n w inside small =
      let dev : PciDevice = record { id = id; offset = offset; addr = addr } in
      let k = min n (256 - offset) in
      let cut : clip dev n ≡ k = clip-min dev n (omega arith) in
      let at : window_position dev ≡ offset + addr * 256 = window_position_sum dev inside in
      let low = offset + addr * 256 in
      let w1 = device_seek id (pos low) seek_set w in
      let (at1, kept1) = s.seeks low w (omega arith) in
      let (at2, kept2, bytes) = s.reads dst ptr k w1 (omega arith) in
      rw (cut, pci_device_read, at)
        (
          kept2 ∙ kept1,
          λ i lt.
              bytes i lt
              ∙ ap (λ (x : Memory). x (position w1 + i)) kept1
              ∙ ap (space w) (omega arith),
        )

write_same : (mem : Memory) (a v : ℕ) → mem a ≡ v → write mem a v ≡ mem
write_same mem a v e = fun_ext (λ b. ground (arith, e))

opened :
    (id : ℕ) (mem : Memory) (path addr : ℕ)
    → mem path ≢ 0
    → str_to_ulong mem 16 path 4 ≡ addr
    → addr < 2 ^ 16
    → pci_open id mem path ≡ some (device_at id addr)
unfolding pci_open
opened id mem path addr named value small =
    let addr' : u16 (str_to_ulong mem 16 path 4) ≡ addr = omega arith in
    let named' : (mem path == 0) ≡ false = ground (arith, named) in
    rw (named', addr', pci_open) refl

-- The name that pci_list writes for a function opens that function: pci_open reads back its address.
pub pci_open-entry_name :
    (id : ℕ) (junk : Memory) (ptr : ℕ) (d : PciDevice)
    → d.addr < 2 ^ 16
    → pci_open id (entry_name junk ptr d) ptr ≡ some (device_at id d.addr)
pci_open-entry_name id junk ptr d small =
    let (text, value) =
      ulong_to_str_align_lem 16 (omega arith) (omega arith) junk d.addr ptr 4 (omega arith)
        (omega arith) in
    let name = ulong_to_str_align junk d.addr 16 ptr 4 in
    let same : entry_name junk ptr d ≡ name =
      unfold entry_name in write_same name (ptr + 4) 0 text.terminated in
    let first : name ptr ≢ 0 = λ e. text.nonzero 0 (omega arith) (ap name (omega arith) ∙ e) in
    rw same (opened id name ptr d.addr first value small)
