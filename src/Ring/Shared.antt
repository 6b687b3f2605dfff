-- ===== src/Ring/Shared.antt =====
-- The command queue over the shared memory that lib/libfpga/src/libshmem.c registers: the lookups
-- of libdma.c are those of its maps.
use hardware_drivers.Prelude.{
  ℕ, ◌+◌, ◌<◌, ◌≡◌, ◌≢◌, refl, ap, ◌∙◌, sym, inl, inr, true, Bool-cases, arith,
}
use native.Mathlib.Nat.{add-zero}
use hardware_drivers.Device.{Que}
use hardware_drivers.Ring.Command.{done, DmacmdInfo, Translate, virt_addr_with_check}
use hardware_drivers.Ring.Transfer.{enqueue_cmd, store_result}
use hardware_drivers.Ring.Safety.{IsBuffer, enqueue_cmd_safe}
use hardware_drivers.Shmem.{Maps, register_check, mmap_v2p, mmap_p2v}
use hardware_drivers.Shmem.Alloc.{dma_pa_from_va, local_phy2virt}
use hardware_drivers.Shmem.Consistent.{IsConsistent}
use hardware_drivers.Shmem.Translate.{v2p_zero, v2p-p2v}

-- The lookups; `rte_mem_virt2phy` is a function that the caller gives.
abbrev pub shared : Maps → (ℕ → ℕ) → Translate
shared m virt2phy = record {
  pa_from_va = dma_pa_from_va m;
  virt2phy = virt2phy;
  phy2virt = local_phy2virt m;
}

-- A lookup with a result is one of the maps, at an address that a region holds.
dma_pa_from_va_found :
    (m : Maps) (va len : ℕ)
    → (dma_pa_from_va m va len).0 ≢ 0
    → (dma_pa_from_va m va len ≡ mmap_v2p m va len) × (register_check m va ≡ true)
unfolding dma_pa_from_va
dma_pa_from_va_found m va len h = elim (Bool-cases (register_check m va)) [
  | inl e ↦ (ground (arith, h), e)
  | inr e ↦ absurd (ground (arith, h, v2p_zero m va len e))
]

-- The bytes of a buffer that passed the checks.
buffer_bytes :
    (m : Maps) (f : ℕ → ℕ) (c : DmacmdInfo) (pa i : ℕ)
    → IsConsistent m
    → IsBuffer (shared m f) c pa
    → i < c.data_len
    → mmap_p2v m (pa + i) ≡ c.data_addr + i
buffer_bytes m f c pa i k b h =
    let found =
      dma_pa_from_va_found m c.data_addr c.data_len (λ z. b.boundary.1 (sym b.physical ∙ z)) in
    let all = v2p-p2v m c.data_addr c.data_len i 0 k found.1 in
    let physical = sym (ap (λ (x : ℕ × ℕ). x.0) found.0) ∙ b.physical in
    let whole = sym (ap (λ (x : ℕ × ℕ). x.1) found.0) ∙ b.contiguous in
    ap (λ (x : ℕ). mmap_p2v m (x + i)) (sym physical) ∙ (all (rw whole h)).0

-- Over consistent maps, what `fpga_enqueue` hands to the FPGA is the buffer of the command, byte
-- for byte: the length is that of the command, the `i`-th physical byte belongs to the `i`-th byte
-- of the buffer, and a dequeue of the descriptor reports the address that was enqueued.
pub enqueue_shared :
    (m : Maps) (f : ℕ → ℕ) (q q2 : Que) (c c2 : DmacmdInfo) (i : ℕ)
    → IsConsistent m
    → enqueue_cmd (shared m f) virt_addr_with_check q c ≡ (done, q2, c2)
    → i < c.data_len
    → ((q2.ring q.writehead).len ≡ c.data_len)
      × (mmap_p2v m ((q2.ring q.writehead).addr + i) ≡ c.data_addr + i)
      × ((store_result (shared m f) (q2.ring q.writehead) c2).result_data_addr ≡ c.data_addr)
unfolding store_result local_phy2virt
enqueue_shared m f q q2 c c2 i k h p =
    let (pa, b, e) = enqueue_cmd_safe (shared m f) q q2 c c2 h in
    let first : mmap_p2v m pa ≡ c.data_addr =
      ap (mmap_p2v m) (sym (add-zero pa))
      ∙ buffer_bytes m f c pa 0 k b (omega (arith, p))
      ∙ add-zero c.data_addr in
    rw e (refl, buffer_bytes m f c pa i k b p, ground (arith, first, b.boundary.1))
