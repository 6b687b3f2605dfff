-- ===== src/Shmem/Register.antt =====
-- Registration, its update and its end keep the maps consistent.
use hardware_drivers.Prelude.{
  ℕ, ◌+◌, ◌^◌, ◌≤◌, ◌<◌, ◌≡◌, refl, inl, inr, false, Bool-cases, Option-cases, none, some, arith,
  ◌==◌, ==_iff,
}
use hardware_drivers.Shmem.{
  Region, region, Maps, Code, done, invalid_argument, find, erase, put, next, u64, conflicts,
  register, register_update, update_found, unregister, register_check,
}
use hardware_drivers.Shmem.Regions.{find-put, find-erase, next_found, next-none, next_least}
use hardware_drivers.Shmem.Consistent.{
  IsConsistent, IsClear, IsFree, add-IsConsistent, drop-IsConsistent, same-IsConsistent,
}
use hardware_drivers.Shmem.Translate.{check_clear}

-- Room for the physical region, which the check of the code does not look at.
pub record IsFresh (m : Maps) (addr paddr size : ℕ) : Type 0 where
  pub nonempty : 0 < size
  pub unregistered : register_check m addr ≡ false
  pub p2v_clear : IsClear m.p2v paddr size
  pub v2p_end : addr + size < 2 ^ 64
  pub p2v_end : paddr + size ≤ 2 ^ 64

-- What a registration of an address that no region holds does: either it adds the region to both
-- maps, or another region begins inside it and no entry changes.
pub data Registers (m : Maps) (addr paddr size : ℕ) : Code × Maps → Type 0 where
  added :
      {m' : Maps}
      → find addr m'.v2p ≡ some (region addr paddr size)
      → IsClear m.v2p addr size
      → Registers m addr paddr size (done, m')
  refused :
      {m' : Maps} (q : Region)
      → find q.key m.v2p ≡ some q
      → addr < q.key
      → q.key < addr + size
      → ((j : ℕ) → find j m'.v2p ≡ find j m.v2p)
      → m'.p2v ≡ m.p2v
      → Registers m addr paddr size (invalid_argument, m')

fresh_none :
    (m : Maps) (addr paddr size : ℕ)
    → IsConsistent m
    → IsFresh m addr paddr size
    → find addr m.v2p ≡ none
fresh_none m addr paddr size c f = elim (Option-cases (find addr m.v2p)) [
  | inl e ↦ e
  | inr (r, e) ↦
      absurd (ground (arith, check_clear m addr addr r c f.unregistered e, c.v2p_bounded addr r e))
]

-- Where the next entry begins past the new region, the region is clear of all.
next-IsClear :
    (m : Maps) (addr paddr size : ℕ)
    → IsConsistent m
    → IsFresh m addr paddr size
    → conflicts (u64 (addr + size)) (next addr (put (region addr paddr size) m.v2p)) ≡ false
    → IsClear m.v2p addr size
next-IsClear m addr paddr size c f h k r p =
    let new = put (region addr paddr size) m.v2p in
    elim (Option-cases (next addr new)) [
      | inl e ↦ ground (
        arith,
        check_clear m addr k r c f.unregistered p,
        next-none addr new k r e,
        find-put (region addr paddr size) m.v2p k,
      )
      | inr (q, e) ↦ ground (
        arith,
        check_clear m addr k r c f.unregistered p,
        next_least addr new q k r e,
        find-put (region addr paddr size) m.v2p k,
      )
    ]

-- Either way, no entry changes that was there: the entry is added, or taken out again.
pub register-Registers :
    (m : Maps) (addr paddr size : ℕ)
    → IsConsistent m
    → IsFresh m addr paddr size
    → Registers m addr paddr size (register m addr paddr size)
unfolding register
register-Registers m addr paddr size c f =
    let r = region addr paddr size in
    let new = put r m.v2p in
    let room = fresh_none m addr paddr size c f in
    elim (Bool-cases (conflicts (u64 (addr + size)) (next addr new))) [
      | inl e ↦ elim (Option-cases (next addr new)) [
        | inl n ↦ absurd (ground arith)
        | inr (q, n) ↦
            let (at, after) = next_found addr new q n in
            rw (room, e)
              (refused q (ground (arith, find-put r m.v2p q.key)) after (ground (arith, f.v2p_end))
                (λ j. ground (arith, find-erase addr new j, find-put r m.v2p j)) refl)
      ]
      | inr e ↦
          rw (room, e)
            (added (ground (arith, find-put r m.v2p addr)) (next-IsClear m addr paddr size c f e))
    ]

-- A registration of fresh memory keeps the maps consistent, whether it is refused or not.
pub register-IsConsistent :
    (m : Maps) (addr paddr size : ℕ)
    → IsConsistent m
    → IsFresh m addr paddr size
    → IsConsistent (register m addr paddr size).1
unfolding register
register-IsConsistent m addr paddr size c f =
    let r = region addr paddr size in
    let new = put r m.v2p in
    let room = fresh_none m addr paddr size c f in
    elim (Bool-cases (conflicts (u64 (addr + size)) (next addr new))) [
      | inl e ↦
          rw (room, e)
            (same-IsConsistent m _ (λ j. ground (arith, find-erase addr new j, find-put r m.v2p j))
              (λ j. refl) c)
      | inr e ↦
          rw (room, e)
            (add-IsConsistent addr paddr size c
              (record {
                nonempty = f.nonempty;
                v2p_clear = next-IsClear m addr paddr size c f e;
                p2v_clear = f.p2v_clear;
                v2p_end = omega (arith, f.v2p_end);
                p2v_end = f.p2v_end;
              })
              (find-put r m.v2p) (find-put (region paddr addr size) m.p2v))
    ]

-- The end of a registration keeps the maps consistent.
pub unregister-IsConsistent :
    (m : Maps) (vaddr : ℕ) → IsConsistent m → IsConsistent (unregister m vaddr)
unfolding unregister
unregister-IsConsistent m vaddr c = elim (Option-cases (find vaddr m.v2p)) [
  | inl e ↦ rw e c
  | inr (r, e) ↦
      rw e (drop-IsConsistent vaddr r c e (find-erase vaddr m.v2p) (find-erase r.target m.p2v))
]

-- The maps without the region, and with it at its new place.
abbrev without : Maps → ℕ → Region → Maps
without m addr r = record { v2p = erase addr m.v2p; p2v = erase r.target m.p2v }

move :
    (m : Maps) (addr paddr size : ℕ) (r : Region)
    → IsConsistent (without m addr r)
    → IsFree (without m addr r) addr paddr size
    → IsConsistent (update_found r (some (region r.target addr r.size)) m addr paddr size).1
move m addr paddr size r c f = elim (Bool-cases (r.target == paddr)) [
  | inl e ↦ rw e (
      add-IsConsistent addr paddr size c f
        (λ j. ground (
          arith,
          find-put (region addr r.target size) m.v2p j,
          find-erase addr m.v2p j,
          ==_iff r.target paddr,
        ))
        (λ j. ground (
          arith,
          find-put (region r.target addr size) m.p2v j,
          find-erase r.target m.p2v j,
          ==_iff r.target paddr,
        )))
  | inr e ↦ rw e (
      add-IsConsistent addr paddr size c f
        (λ j. ground (arith, find-put (region addr paddr size) m.v2p j, find-erase addr m.v2p j))
        (λ j. ground (arith, find-put (region paddr addr size) (erase r.target m.p2v) j)))
]

-- An update moves the region of `addr` to `paddr` and changes its size. It keeps the maps
-- consistent where there is room for the new region once the old one is gone.
pub register_update-IsConsistent :
    (m : Maps) (addr paddr size : ℕ)
    → IsConsistent m
    → IsFree (unregister m addr) addr paddr size
    → IsConsistent (register_update m addr paddr size).1
unfolding register_update unregister
register_update-IsConsistent m addr paddr size c f = elim (Option-cases (find addr m.v2p)) [
  | inl e ↦ rw e c
  | inr (r, e) ↦
      rw (e, c.v2p_mirror addr r e)
        (move m addr paddr size r
          (drop-IsConsistent addr r c e (find-erase addr m.v2p) (find-erase r.target m.p2v))
          (rw e at f))
]
