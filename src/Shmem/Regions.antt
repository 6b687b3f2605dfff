-- ===== src/Shmem/Regions.antt =====
-- What the operations of a map of regions do to its entries.
use hardware_drivers.Prelude.{
  ℕ, ◌≤◌, ◌<◌, ◌≡◌, inl, inr, none, some, List, [], ◌∷◌, arith, ◌==◌, if◌then◌else◌, Option-cases,
}
use hardware_drivers.Shmem.{Region, find, erase, put, floor, next}

pub find_key : (k : ℕ) (m : List Region) (r : Region) → find k m ≡ some r → r.key ≡ k
unfolding find
find_key k [] r h = ground arith
find_key k (q ∷ m) r h = ground (arith, find_key k m r)

pub find-erase :
    (k : ℕ) (m : List Region) (j : ℕ) → find j (erase k m) ≡ (if k == j then none else find j m)
unfolding find erase
find-erase k [] j = ground arith
find-erase k (r ∷ m) j = ground (arith, find-erase k m j)

pub find-put :
    (r : Region) (m : List Region) (j : ℕ)
    → find j (put r m) ≡ (if r.key == j then some r else find j m)
unfolding find put
find-put r m j = ground (arith, find-erase r.key m j)

pub floor-le : (k : ℕ) (m : List Region) (r : Region) → floor k m ≡ some r → r.key ≤ k
unfolding floor
floor-le k [] r h = ground arith
floor-le k (q ∷ m) r h = elim (Option-cases (floor k m)) [
  | inl e ↦ ground arith
  | inr (s, e) ↦ ground (arith, floor-le k m s e)
]

-- The floor of `k` is an entry.
pub floor_found :
    (k : ℕ) (m : List Region) (r : Region) → floor k m ≡ some r → find r.key m ≡ some r
unfolding find floor
floor_found k [] r h = ground arith
floor_found k (q ∷ m) r h = elim (Option-cases (floor k m)) [
  | inl e ↦ ground arith
  | inr (s, e) ↦ ground (arith, floor_found k m s e, floor-le k m s e)
]

-- Without a floor, every entry is past `k`.
pub floor-none :
    (k : ℕ) (m : List Region) (j : ℕ) (q : Region) → floor k m ≡ none → find j m ≡ some q → k < j
unfolding find floor
floor-none k [] j q h g = ground arith
floor-none k (x ∷ m) j q h g = ground (arith, floor-none k m j q)

-- Every entry at `k` or before it is at the floor or before it.
pub floor_greatest :
    (k : ℕ) (m : List Region) (r : Region) (j : ℕ) (q : Region)
    → floor k m ≡ some r
    → find j m ≡ some q
    → j ≤ k
    → j ≤ r.key
unfolding find floor
floor_greatest k [] r j q h g p = ground arith
floor_greatest k (x ∷ m) r j q h g p = elim (Option-cases (floor k m)) [
  | inl e ↦ ground (arith, floor-none k m j q e)
  | inr (s, e) ↦ ground (arith, floor_greatest k m s j q e)
]

pub next_found :
    (k : ℕ) (m : List Region) (r : Region)
    → next k m ≡ some r
    → (find r.key m ≡ some r) × (k < r.key)
unfolding find next
next_found k [] r h = ground arith
next_found k (q ∷ m) r h = elim (Option-cases (next k m)) [
  | inl e ↦ ground arith
  | inr (s, e) ↦ ground (arith, next_found k m s e)
]

-- Without an entry after `k`, every entry is at `k` or before it.
pub next-none :
    (k : ℕ) (m : List Region) (j : ℕ) (q : Region) → next k m ≡ none → find j m ≡ some q → j ≤ k
unfolding find next
next-none k [] j q h g = ground arith
next-none k (x ∷ m) j q h g = ground (arith, next-none k m j q)

-- No entry lies between `k` and the next one.
pub next_least :
    (k : ℕ) (m : List Region) (r : Region) (j : ℕ) (q : Region)
    → next k m ≡ some r
    → find j m ≡ some q
    → k < j
    → r.key ≤ j
unfolding find next
next_least k [] r j q h g p = ground arith
next_least k (x ∷ m) r j q h g p = elim (Option-cases (next k m)) [
  | inl e ↦ ground (arith, next-none k m j q e)
  | inr (s, e) ↦ ground (arith, next_least k m s j q e)
]
