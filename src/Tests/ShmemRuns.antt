-- ===== src/Tests/ShmemRuns.antt =====
-- The theorems on shared memory at one or two regions of it.
use hardware_drivers.Prelude.{ℕ, ◌≤◌, ◌+◌, ◌≡◌, refl, arith, [], ◌∷◌, none, some, true}
use hardware_drivers.Device.{Que}
use hardware_drivers.Ring.Command.{done, virt_addr_with_check}
use hardware_drivers.Ring.Transfer.{
  check_cmd, check_addr, check_region, enqueue_desc, enqueue_checked, enqueue_valid, enqueue_cmd,
  store_result, next_head, fill_desc,
}
use hardware_drivers.Ring.Shared.{shared, enqueue_shared}
use hardware_drivers.Shmem.{
  Region, region, Maps, find, floor, erase, register, register_update, register_check, unregister,
  mmap_v2p, mmap_p2v,
}
use hardware_drivers.Shmem.Consistent.{IsConsistent, IsClear, IsFree}
use hardware_drivers.Shmem.Translate.{v2p-p2v}
use hardware_drivers.Shmem.Register.{IsFresh, register-IsConsistent, register_update-IsConsistent}
use hardware_drivers.Shmem.Alloc.{Dpdk, alloc, dma_pa_from_va}
use hardware_drivers.Shmem.Alloc.Ends.{IsBacked, alloc-Ends}
use hardware_drivers.Shmem.Alloc.Hangs.{alloc_hangs}
use hardware_drivers.Tests.Samples.{a_ring, a_command}

-- One region of 16 KB.
abbrev held : Maps
held = record { v2p = region 0x8000 0x50000 0x4000 ∷ []; p2v = region 0x50000 0x8000 0x4000 ∷ [] }

held_v2p :
    (k : ℕ) (r : Region)
    → find k held.v2p ≡ some r
    → (k ≡ 0x8000) × (r ≡ region 0x8000 0x50000 0x4000)
unfolding find
held_v2p k r h = ground (arith, h)

held_p2v :
    (k : ℕ) (r : Region)
    → find k held.p2v ≡ some r
    → (k ≡ 0x50000) × (r ≡ region 0x50000 0x8000 0x4000)
unfolding find
held_p2v k r h = ground (arith, h)

held-IsConsistent : IsConsistent held
unfolding find
held-IsConsistent = record {
  v2p_apart = λ j k r q g h. ground (arith, held_v2p j r g, held_v2p k q h);
  p2v_apart = λ j k r q g h. ground (arith, held_p2v j r g, held_p2v k q h);
  v2p_mirror = λ k r h. ground (arith, held_v2p k r h);
  p2v_mirror = λ k r h. ground (arith, held_p2v k r h);
  v2p_bounded = λ k r h. ground (arith, held_v2p k r h);
  p2v_bounded = λ k r h. ground (arith, held_p2v k r h);
}

v2p-p2v_example :
    (mmap_p2v held ((mmap_v2p held 0x9000 0x10000).0 + 5) ≡ 0x9005)
    × ((mmap_v2p held 0x9005 1).0 ≡ (mmap_v2p held 0x9000 0x10000).0 + 5)
    × ((mmap_v2p held 0x9000 0x10000).1 ≤ 0x10000)
unfolding register_check mmap_v2p floor
v2p-p2v_example = v2p-p2v held 0x9000 0x10000 5 1 held-IsConsistent refl (omega arith)

new-IsFresh : IsFresh held 0x20000 0x60000 0x1000
unfolding register_check floor
new-IsFresh = record {
  nonempty = omega arith;
  unregistered = refl;
  p2v_clear = λ k r h. ground (arith, held_p2v k r h);
  v2p_end = omega arith;
  p2v_end = omega arith;
}

register-IsConsistent_example : IsConsistent (register held 0x20000 0x60000 0x1000).1
register-IsConsistent_example =
    register-IsConsistent held 0x20000 0x60000 0x1000 held-IsConsistent new-IsFresh

room : IsFree (unregister held 0x8000) 0x8000 0x70000 0x2000
unfolding unregister find erase
room = record {
  nonempty = omega arith;
  v2p_clear = λ k r h. absurd (ground (arith, h));
  p2v_clear = λ k r h. absurd (ground (arith, h));
  v2p_end = omega arith;
  p2v_end = omega arith;
}

register_update-IsConsistent_example : IsConsistent (register_update held 0x8000 0x70000 0x2000).1
register_update-IsConsistent_example =
    register_update-IsConsistent held 0x8000 0x70000 0x2000 held-IsConsistent room

-- DPDK knows every address, at a fixed distance.
abbrev known : Dpdk
known = record { has_memseg_list = λ a. true; has_memseg = λ a. true; virt2phy = λ a. a + 0x100000 }

physical-IsClear : (va s : ℕ) → IsClear held.p2v (va + 0x100000) s
physical-IsClear va s k r h = ground (arith, held_p2v k r h)

backed : (va s : ℕ) → IsFresh held va (va + 0x100000) s → IsBacked known held va s
backed va s f = record {
  has_memseg_list = refl;
  has_memseg = refl;
  mapped = λ e. omega arith;
  fresh = f;
}

far-IsFresh : IsFresh held 0x20000 0x120000 0x1000
unfolding register_check floor
far-IsFresh = record {
  nonempty = omega arith;
  unregistered = refl;
  p2v_clear = physical-IsClear 0x20000 0x1000;
  v2p_end = omega arith;
  p2v_end = omega arith;
}

alloc-Ends_example :
    (m' : Maps) × (alloc 2 known held (some 0x20000) 0x1000 ≡ some (some 0x20000, m'))
    × IsConsistent m'
    × (mmap_v2p m' 0x20000 0x1000 ≡ (0x120000, 0x1000))
alloc-Ends_example =
    alloc-Ends 0 known held 0x20000 0x1000 held-IsConsistent (backed 0x20000 0x1000 far-IsFresh)
      (λ k r h. ground (arith, held_v2p k r h))

-- An allocation that begins below the region and ends inside it.
low-IsFresh : IsFresh held 0x4000 0x104000 0x6000
unfolding register_check floor
low-IsFresh = record {
  nonempty = omega arith;
  unregistered = refl;
  p2v_clear = physical-IsClear 0x4000 0x6000;
  v2p_end = omega arith;
  p2v_end = omega arith;
}

alloc_hangs_example : alloc 1000 known held (some 0x4000) 0x6000 ≡ none
unfolding find
alloc_hangs_example =
    alloc_hangs 1000 known held 0x4000 0x6000 (region 0x8000 0x50000 0x4000) held-IsConsistent
      (backed 0x4000 0x6000 low-IsFresh) refl (omega arith) (omega arith)

-- The ring after a command for the region.
abbrev loaded : Que
unfolding enqueue_desc
loaded = (enqueue_desc a_ring a_command 0x50000).1

a_enqueue :
    enqueue_cmd (shared held (λ a. a)) virt_addr_with_check a_ring a_command
    ≡ (done, loaded, record a_command { desc_addr = some 3 })
unfolding enqueue_cmd enqueue_valid check_cmd check_addr check_region enqueue_checked enqueue_desc
    fill_desc next_head dma_pa_from_va mmap_v2p register_check floor
a_enqueue = refl

enqueue_shared_example :
    ((loaded.ring 3).len ≡ 2048)
    × (mmap_p2v held ((loaded.ring 3).addr + 2047) ≡ 0x8000 + 2047)
    × ((store_result
          (shared held (λ a. a))
          (loaded.ring 3)
          (record a_command { desc_addr = some 3 })).result_data_addr
        ≡ 0x8000)
enqueue_shared_example =
    enqueue_shared held (λ a. a) a_ring loaded a_command (record a_command { desc_addr = some 3 })
      2047 held-IsConsistent a_enqueue (omega arith)
