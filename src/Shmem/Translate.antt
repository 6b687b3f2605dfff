-- ===== src/Shmem/Translate.antt =====
-- What the two translations show of a region.
use hardware_drivers.Prelude.{
  ℕ, ◌+◌, ◌-◌, ◌≤◌, ◌<◌, ◌≡◌, ◌⊎◌, refl, inl, inr, true, false, Option-cases, some, List, arith,
  subst, ltb, if◌then◌else◌,
}
use native.Mathlib.Nat.{add_assoc}
use hardware_drivers.Shmem.{Region, region, Maps, find, floor, mmap_v2p, mmap_p2v, register_check}
use hardware_drivers.Shmem.Regions.{find_key, floor_found, floor-le, floor_greatest, floor-none}
use hardware_drivers.Shmem.Consistent.{IsApart, IsConsistent}

-- The floor of an address inside a region is that region.
pub floor_inside :
    (m : List Region) (k a : ℕ) (r : Region)
    → IsApart m
    → find k m ≡ some r
    → k ≤ a
    → a < k + r.size
    → floor a m ≡ some r
floor_inside m k a r ap h p q = elim (Option-cases (floor a m)) [
  | inl e ↦ absurd (ground (arith, floor-none a m k r e h))
  | inr (s, e) ↦
      ground (
        arith,
        floor_found a m s e,
        floor-le a m s e,
        floor_greatest a m s k r e h p,
        ap k s.key r s,
      )
]

module _ (m : Maps) (c : IsConsistent m) (k i : ℕ) (r : Region) where
  pub v2p_inside :
      (len : ℕ)
      → find k m.v2p ≡ some r
      → i < r.size
      → mmap_v2p m (k + i) len ≡ (r.target + i, if ltb (r.size - i) len then r.size - i else len)
  unfolding mmap_v2p
  v2p_inside len h p =
      rw (floor_inside m.v2p k (k + i) r c.v2p_apart h (omega arith) (omega arith)) (
        ground (
          arith,
          find_key k m.v2p r h,
          c.v2p_mirror k r h,
          c.p2v_bounded r.target (region r.target k r.size),
        ))

  pub p2v_inside : find k m.p2v ≡ some r → i < r.size → mmap_p2v m (k + i) ≡ r.target + i
  unfolding mmap_p2v
  p2v_inside h p = rw (floor_inside m.p2v k (k + i) r c.p2v_apart h (omega arith) (omega arith)) (
      ground (
        arith,
        find_key k m.p2v r h,
        c.p2v_mirror k r h,
        c.v2p_bounded r.target (region r.target k r.size),
      ))

-- The region that holds the address of a successful translation.
pub record Covers (m : Maps) (va : ℕ) : Type 0 where
  pub k : ℕ
  pub r : Region
  pub at : find k m.v2p ≡ some r
  pub from : k ≤ va
  pub to : va < k + r.size

pub check-Covers : (m : Maps) (va : ℕ) → IsConsistent m → register_check m va ≡ true → Covers m va
unfolding register_check
check-Covers m va c h = elim (Option-cases (floor va m.v2p)) [
  | inl e ↦ absurd (ground arith)
  | inr (r, e) ↦ record {
    k = r.key;
    r = r;
    at = floor_found va m.v2p r e;
    from = floor-le va m.v2p r e;
    to = ground (arith, floor-le va m.v2p r e);
  }
]

-- Where the check fails, no region holds the address.
pub check_clear :
    (m : Maps) (va k : ℕ) (r : Region)
    → IsConsistent m
    → register_check m va ≡ false
    → find k m.v2p ≡ some r
    → (va < k) ⊎ (k + r.size ≤ va)
unfolding register_check
check_clear m va k r c h f = elim (Option-cases (floor va m.v2p)) [
  | inl e ↦ inl (floor-none va m.v2p k r e f)
  | inr (s, e) ↦ ground (
    arith,
    floor_found va m.v2p s e,
    floor-le va m.v2p s e,
    floor_greatest va m.v2p s k r e f,
    c.v2p_apart k s.key r s,
  )
]

-- A translation without a result: no region holds the address, or it is the physical address 0.
pub v2p_zero : (m : Maps) (va len : ℕ) → register_check m va ≡ false → mmap_v2p m va len ≡ (0, len)
unfolding register_check mmap_v2p
v2p_zero m va len h = ground arith

-- The theorem below at an offset in a region.
v2p_region :
    (m : Maps) (k j i len l : ℕ) (r : Region)
    → IsConsistent m
    → find k m.v2p ≡ some r
    → j < r.size
    → i < (mmap_v2p m (k + j) len).1
    → (mmap_p2v m ((mmap_v2p m (k + j) len).0 + i) ≡ k + j + i)
      × ((mmap_v2p m (k + j + i) l).0 ≡ (mmap_v2p m (k + j) len).0 + i)
      × ((mmap_v2p m (k + j) len).1 ≤ len)
v2p_region m k j i len l r c h p q =
    let from = v2p_inside m c k j r len h p in
    let q' = rw from at q in
    let on = v2p_inside m c k (j + i) r l h (ground arith) in
    let back =
      p2v_inside m c r.target (j + i) (region r.target k r.size) (c.v2p_mirror k r h)
        (ground arith) in
    rw (from, add_assoc k j i, add_assoc r.target j i, on, back) (refl, refl, ground arith)

-- In consistent maps, an address that a region holds translates to one that translates back, for
-- each of the bytes that the translation promises: the `i`-th byte from it is the `i`-th byte from
-- the physical address in both directions. The promised length is `len` at most.
pub v2p-p2v :
    (m : Maps) (va len i l : ℕ)
    → IsConsistent m
    → register_check m va ≡ true
    → i < (mmap_v2p m va len).1
    → (mmap_p2v m ((mmap_v2p m va len).0 + i) ≡ va + i)
      × ((mmap_v2p m (va + i) l).0 ≡ (mmap_v2p m va len).0 + i)
      × ((mmap_v2p m va len).1 ≤ len)
v2p-p2v m va len i l c h p =
    let v = check-Covers m va c h in
    let e : v.k + (va - v.k) ≡ va = omega (arith, v.from) in
    subst
      (λ a.
        i < (mmap_v2p m a len).1
        → (mmap_p2v m ((mmap_v2p m a len).0 + i) ≡ a + i)
          × ((mmap_v2p m (a + i) l).0 ≡ (mmap_v2p m a len).0 + i)
          × ((mmap_v2p m a len).1 ≤ len))
      e (v2p_region m v.k (va - v.k) i len l v.r c v.at (omega (arith, v.to))) p
