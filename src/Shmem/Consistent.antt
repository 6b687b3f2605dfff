-- ===== src/Shmem/Consistent.antt =====
-- The two maps describe one set of regions: what keeps this when regions come and go.
use hardware_drivers.Prelude.{
  ℕ, ◌+◌, ◌^◌, ◌≤◌, ◌<◌, ◌≡◌, refl, ◌⊎◌, inl, inr, Option-cases, none, some, List, arith, ◌==◌,
  if◌then◌else◌,
}
use hardware_drivers.Shmem.{Region, region, Maps, find}

-- No two regions overlap.
abbrev pub IsApart : List Region → Type 0
IsApart m =
    (j k : ℕ) (r q : Region) → find j m ≡ some r → find k m ≡ some q → j < k → j + r.size ≤ k

-- Each region of one map is one of the other, read the other way.
abbrev pub IsMirror : List Region → List Region → Type 0
IsMirror m n =
    (k : ℕ) (r : Region) → find k m ≡ some r → find r.target n ≡ some (region r.target k r.size)

-- No region is empty, and none wraps round the address space.
abbrev pub IsBounded : List Region → Type 0
IsBounded m = (k : ℕ) (r : Region) → find k m ≡ some r → (0 < r.size) × (k + r.size ≤ 2 ^ 64)

pub record IsConsistent (m : Maps) : Type 0 where
  pub v2p_apart : IsApart m.v2p
  pub p2v_apart : IsApart m.p2v
  pub v2p_mirror : IsMirror m.v2p m.p2v
  pub p2v_mirror : IsMirror m.p2v m.v2p
  pub v2p_bounded : IsBounded m.v2p
  pub p2v_bounded : IsBounded m.p2v

-- No region of the map meets the `s` bytes at `a`.
abbrev pub IsClear : List Region → ℕ → ℕ → Type 0
IsClear m a s = (k : ℕ) (r : Region) → find k m ≡ some r → (a + s ≤ k) ⊎ (k + r.size ≤ a)

-- `m'` has one entry more than `m`, or one at the key of an old one.
abbrev pub Adds : List Region → List Region → Region → Type 0
Adds m m' r = (j : ℕ) → find j m' ≡ (if r.key == j then some r else find j m)

abbrev pub Drops : List Region → List Region → ℕ → Type 0
Drops m m' a = (j : ℕ) → find j m' ≡ (if a == j then none else find j m)

clear_none : (m : List Region) (a s : ℕ) → IsBounded m → IsClear m a s → 0 < s → find a m ≡ none
clear_none m a s b c h = elim (Option-cases (find a m)) [
  | inl e ↦ e
  | inr (r, e) ↦ absurd (ground (arith, b a r, c a r))
]

add-IsApart :
    (m m' : List Region) (r : Region)
    → IsApart m
    → IsClear m r.key r.size
    → 0 < r.size
    → Adds m m' r
    → IsApart m'
add-IsApart m m' r ap cl z ad j k x y p q h = ground (arith, ad j, ad k, ap j k x y, cl j x, cl k y)

add-IsBounded :
    (m m' : List Region) (r : Region)
    → IsBounded m
    → 0 < r.size
    → r.key + r.size ≤ 2 ^ 64
    → Adds m m' r
    → IsBounded m'
add-IsBounded m m' r b z e ad k x p = ground (arith, ad k, b k x)

add-IsMirror :
    (m m' n n' : List Region) (a p s : ℕ)
    → IsMirror m n
    → find p n ≡ none
    → Adds m m' (region a p s)
    → Adds n n' (region p a s)
    → IsMirror m' n'
add-IsMirror m m' n n' a p s mi fr ad ad' k x h = ground (arith, ad k, ad' x.target, mi k x)

drop-IsApart : (m m' : List Region) (a : ℕ) → IsApart m → Drops m m' a → IsApart m'
drop-IsApart m m' a ap d j k x y p q h = ground (arith, d j, d k, ap j k x y)

drop-IsBounded : (m m' : List Region) (a : ℕ) → IsBounded m → Drops m m' a → IsBounded m'
drop-IsBounded m m' a b d k x p = ground (arith, d k, b k x)

drop-IsMirror :
    (m m' n n' : List Region) (a p : ℕ) (r : Region)
    → IsMirror m n
    → find p n ≡ some r
    → r.target ≡ a
    → Drops m m' a
    → Drops n n' p
    → IsMirror m' n'
drop-IsMirror m m' n n' a p r mi f t d d' k x h = ground (arith, d k, d' x.target, mi k x)

-- Room for a region of `s` bytes at `a` that stand for those at `p`.
pub record IsFree (m : Maps) (a p s : ℕ) : Type 0 where
  pub nonempty : 0 < s
  pub v2p_clear : IsClear m.v2p a s
  pub p2v_clear : IsClear m.p2v p s
  pub v2p_end : a + s ≤ 2 ^ 64
  pub p2v_end : p + s ≤ 2 ^ 64

pub add-IsConsistent :
    {m m' : Maps} (a p s : ℕ)
    → IsConsistent m
    → IsFree m a p s
    → Adds m.v2p m'.v2p (region a p s)
    → Adds m.p2v m'.p2v (region p a s)
    → IsConsistent m'
add-IsConsistent {m} {m'} a p s c f v w = record {
  v2p_apart = add-IsApart m.v2p m'.v2p (region a p s) c.v2p_apart f.v2p_clear f.nonempty v;
  p2v_apart = add-IsApart m.p2v m'.p2v (region p a s) c.p2v_apart f.p2v_clear f.nonempty w;
  v2p_mirror =
      add-IsMirror m.v2p m'.v2p m.p2v m'.p2v a p s c.v2p_mirror
        (clear_none m.p2v p s c.p2v_bounded f.p2v_clear f.nonempty) v w;
  p2v_mirror =
      add-IsMirror m.p2v m'.p2v m.v2p m'.v2p p a s c.p2v_mirror
        (clear_none m.v2p a s c.v2p_bounded f.v2p_clear f.nonempty) w v;
  v2p_bounded = add-IsBounded m.v2p m'.v2p (region a p s) c.v2p_bounded f.nonempty f.v2p_end v;
  p2v_bounded = add-IsBounded m.p2v m'.p2v (region p a s) c.p2v_bounded f.nonempty f.p2v_end w;
}

pub drop-IsConsistent :
    {m m' : Maps} (a : ℕ) (r : Region)
    → IsConsistent m
    → find a m.v2p ≡ some r
    → Drops m.v2p m'.v2p a
    → Drops m.p2v m'.p2v r.target
    → IsConsistent m'
drop-IsConsistent {m} {m'} a r c h v w = record {
  v2p_apart = drop-IsApart m.v2p m'.v2p a c.v2p_apart v;
  p2v_apart = drop-IsApart m.p2v m'.p2v r.target c.p2v_apart w;
  v2p_mirror =
      drop-IsMirror m.v2p m'.v2p m.p2v m'.p2v a r.target (region r.target a r.size) c.v2p_mirror
        (c.v2p_mirror a r h) refl v w;
  p2v_mirror = drop-IsMirror m.p2v m'.p2v m.v2p m'.v2p r.target a r c.p2v_mirror h refl w v;
  v2p_bounded = drop-IsBounded m.v2p m'.v2p a c.v2p_bounded v;
  p2v_bounded = drop-IsBounded m.p2v m'.p2v r.target c.p2v_bounded w;
}

-- Maps that show the same entries.
pub same-IsConsistent :
    (m m' : Maps)
    → ((j : ℕ) → find j m'.v2p ≡ find j m.v2p)
    → ((j : ℕ) → find j m'.p2v ≡ find j m.p2v)
    → IsConsistent m
    → IsConsistent m'
same-IsConsistent m m' v w c = record {
  v2p_apart = λ j k r q. ground (arith, v j, v k, c.v2p_apart j k r q);
  p2v_apart = λ j k r q. ground (arith, w j, w k, c.p2v_apart j k r q);
  v2p_mirror = λ k r. ground (arith, v k, w r.target, c.v2p_mirror k r);
  p2v_mirror = λ k r. ground (arith, w k, v r.target, c.p2v_mirror k r);
  v2p_bounded = λ k r. ground (arith, v k, c.v2p_bounded k r);
  p2v_bounded = λ k r. ground (arith, w k, c.p2v_bounded k r);
}
