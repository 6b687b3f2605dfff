-- ===== src/Shmem/Alloc/Ends.antt =====
-- The allocation loop ends where there is room.
use hardware_drivers.Prelude.{ℕ, suc, ◌<◌, ◌≡◌, ◌≢◌, true, false, some, arith, refl, ◌∙◌}
use native.Mathlib.Nat.{add-zero}
use hardware_drivers.Shmem.{region, Maps, Code, find, register, register_check, mmap_v2p}
use hardware_drivers.Shmem.Consistent.{IsConsistent, IsClear}
use hardware_drivers.Shmem.Register.{
  IsFresh, Registers, added, refused, register-Registers, register-IsConsistent,
}
use hardware_drivers.Shmem.Translate.{v2p_zero, v2p_inside}
use hardware_drivers.Shmem.Alloc.{Dpdk, add_new_region, alloc_loop, alloc}

-- What the allocation relies on: DPDK knows the memory of the address, at a physical address that
-- is not 0, and no region holds it or begins inside it.
pub record IsBacked (d : Dpdk) (m : Maps) (va length : ℕ) : Type 0 where
  pub has_memseg_list : d.has_memseg_list va ≡ true
  pub has_memseg : d.has_memseg va ≡ true
  pub mapped : d.virt2phy va ≢ 0
  pub fresh : IsFresh m va (d.virt2phy va) length

registered :
    (m : Maps) (va p length : ℕ) (out : Code × Maps)
    → IsClear m.v2p va length
    → 0 < length
    → Registers m va p length out
    → find va out.1.v2p ≡ some (region va p length)
registered m va p length (c, m') cl z (added h _) = h
registered m va p length (c, m') cl z (refused q h a b _ _) = absurd (ground (arith, cl q.key q))

-- The translation of a new region from its first byte.
new_v2p :
    (m : Maps) (va p length : ℕ)
    → IsConsistent m
    → 0 < length
    → find va m.v2p ≡ some (region va p length)
    → mmap_v2p m va length ≡ (p, length)
new_v2p m va p length c z h =
    let e = v2p_inside m c va 0 (region va p length) length h z in
    rw (add-zero va, add-zero p) at e ∙ ground arith

module _ (fuel : ℕ) (d : Dpdk) (m : Maps) (va len : ℕ) where
  -- A round that registers the address.
  pub alloc_loop_new :
      register_check m va ≡ false
      → d.has_memseg_list va ≡ true
      → d.has_memseg va ≡ true
      → alloc_loop (suc fuel) d m va len
        ≡ alloc_loop fuel d (register m va (d.virt2phy va) len).1 va len
  unfolding alloc_loop add_new_region
  alloc_loop_new h p q = rw (v2p_zero m va len h, p, q) refl

  -- A round that finds it registered.
  alloc_loop_found :
      mmap_v2p m va len ≡ (d.virt2phy va, len)
      → d.virt2phy va ≢ 0
      → alloc_loop (suc fuel) d m va len ≡ some (some len, m)
  unfolding alloc_loop
  alloc_loop_found h p = rw h (ground arith)

-- The loop ends in its second round at the latest.
pub alloc-Ends :
    (fuel : ℕ) (d : Dpdk) (m : Maps) (va length : ℕ)
    → IsConsistent m
    → IsBacked d m va length
    → IsClear m.v2p va length
    → (m' : Maps) × (alloc (suc (suc fuel)) d m (some va) length ≡ some (some va, m'))
      × IsConsistent m'
      × (mmap_v2p m' va length ≡ (d.virt2phy va, length))
unfolding alloc
alloc-Ends fuel d m va length c b cl =
    let p = d.virt2phy va in
    let out = register m va p length in
    let c' = register-IsConsistent m va p length c b.fresh in
    let found = new_v2p out.1 va p length c' b.fresh.nonempty (
      registered m va p length out cl b.fresh.nonempty
        (register-Registers m va p length c b.fresh)) in
    let start =
      alloc_loop_new (suc fuel) d m va length b.fresh.unregistered b.has_memseg_list b.has_memseg in
    (
      out.1,
      rw (start, alloc_loop_found fuel d out.1 va length found b.mapped) (ground arith),
      c',
      found,
    )
