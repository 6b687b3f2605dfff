-- ===== src/Shmem/Alloc/Hangs.antt =====
-- The allocation loop does not end where a region begins inside the memory that it was given.
use hardware_drivers.Prelude.{
  ℕ, zero, suc, ◌+◌, ◌<◌, ◌≤◌, ◌≡◌, ◌⊎◌, inl, inr, false, Option-cases, none, some, arith, refl,
  ◌∙◌,
}
use hardware_drivers.Shmem.{Region, Maps, Code, find, floor, register, register_check}
use hardware_drivers.Shmem.Regions.{floor_found, floor-le}
use hardware_drivers.Shmem.Consistent.{IsConsistent}
use hardware_drivers.Shmem.Register.{
  Registers, added, refused, register-Registers, register-IsConsistent,
}
use hardware_drivers.Shmem.Translate.{check_clear}
use hardware_drivers.Shmem.Alloc.{Dpdk, alloc_loop, alloc}
use hardware_drivers.Shmem.Alloc.Ends.{IsBacked, alloc_loop_new}

-- An address that no region holds fails the check.
check_false :
    (m : Maps) (va : ℕ)
    → ((k : ℕ) (r : Region) → find k m.v2p ≡ some r → (va < k) ⊎ (k + r.size ≤ va))
    → register_check m va ≡ false
unfolding register_check
check_false m va h = elim (Option-cases (floor va m.v2p)) [
  | inl e ↦ rw e
  | inr (r, e) ↦ ground (arith, floor_found va m.v2p r e, floor-le va m.v2p r e, h r.key r)
]

-- A refused registration leaves the allocation where it was.
refused-IsBacked :
    (d : Dpdk) (m : Maps) (va length : ℕ) (q : Region) (out : Code × Maps)
    → IsConsistent m
    → IsBacked d m va length
    → find q.key m.v2p ≡ some q
    → va < q.key
    → q.key < va + length
    → Registers m va (d.virt2phy va) length out
    → IsBacked d out.1 va length × (find q.key out.1.v2p ≡ some q)
refused-IsBacked d m va length q (c, m') cs b h p s (added f cl) =
    absurd (ground (arith, cl q.key q))
refused-IsBacked d m va length q (c, m') cs b h p s (refused r f a e same keep) = (
  record {
    has_memseg_list = b.has_memseg_list;
    has_memseg = b.has_memseg;
    mapped = b.mapped;
    fresh = record {
      nonempty = b.fresh.nonempty;
      unregistered =
          check_false m' va
            (λ k x g. check_clear m va k x cs b.fresh.unregistered (rw (← same k) g));
      p2v_clear = rw keep b.fresh.p2v_clear;
      v2p_end = b.fresh.v2p_end;
      p2v_end = b.fresh.p2v_end;
    };
  },
  ground (arith, same q.key),
)

alloc_loop-none :
    (fuel : ℕ) (d : Dpdk) (m : Maps) (va length : ℕ) (q : Region)
    → IsConsistent m
    → IsBacked d m va length
    → find q.key m.v2p ≡ some q
    → va < q.key
    → q.key < va + length
    → alloc_loop fuel d m va length ≡ none
unfolding alloc_loop
alloc_loop-none zero d m va length q c b h p s = refl
alloc_loop-none (suc fuel) d m va length q c b h p s =
    let p' = d.virt2phy va in
    let out = register m va p' length in
    let (b', h') =
      refused-IsBacked d m va length q out c b h p s
        (register-Registers m va p' length c b.fresh) in
    let next =
      alloc_loop_new fuel d m va length b.fresh.unregistered b.has_memseg_list b.has_memseg in
    next
    ∙ alloc_loop-none fuel d out.1 va length q (register-IsConsistent m va p' length c b.fresh) b'
        h' p s

-- Where a registered region begins inside the memory that `rte_malloc` returned, the registration
-- is refused in each round, and the loop does not end for any fuel.
pub alloc_hangs :
    (fuel : ℕ) (d : Dpdk) (m : Maps) (va length : ℕ) (q : Region)
    → IsConsistent m
    → IsBacked d m va length
    → find q.key m.v2p ≡ some q
    → va < q.key
    → q.key < va + length
    → alloc fuel d m (some va) length ≡ none
unfolding alloc
alloc_hangs fuel d m va length q c b h p s =
    rw (alloc_loop-none fuel d m va length q c b h p s) refl
