-- ===== src/Shmem.antt =====
-- The translation of addresses of shared memory, lib/libfpga/src/libshmem_mmap.cpp. A `std::map` is
-- the list of its entries in any order: `find`, `upper_bound` and the step back from it compare
-- keys. The lock of each function is held over its whole body, so a call is one step.
pub mod Regions
pub mod Consistent
pub mod Translate
pub mod Register
pub mod Alloc
use hardware_drivers.Prelude.{
  ℕ, ◌+◌, ◌-◌, ◌%◌, ◌^◌, Bool, true, false, Option, none, some, List, [], ◌∷◌, ltb, leb, ◌==◌,
  if◌then◌else◌,
}

-- An entry: `size` bytes at `key` stand for those at `target`.
pub record Region : Type 0 where
  pub key : ℕ
  pub target : ℕ
  pub size : ℕ

unfoldable pub find : ℕ → List Region → Option Region
find k [] = none
find k (r ∷ m) = if r.key == k then some r else find k m

unfoldable pub erase : ℕ → List Region → List Region
erase k [] = []
erase k (r ∷ m) = let rest = erase k m in if r.key == k then rest else r ∷ rest

-- `m[r.key] = (r.target, r.size)`
unfoldable pub put : Region → List Region → List Region
unfolding erase
put r m = r ∷ erase r.key m

-- The entry of the larger key, and of the smaller.
abbrev pub later : Region → Option Region → Region
later r none = r
later r (some q) = if ltb r.key q.key then q else r

abbrev pub earlier : Region → Option Region → Region
earlier r none = r
earlier r (some q) = if ltb q.key r.key then q else r

-- The entry before `upper_bound(k)`: the last of the entries whose key is `k` at most. It is `none`
-- where `upper_bound(k)` is `begin()`.
unfoldable pub floor : ℕ → List Region → Option Region
floor k [] = none
floor k (r ∷ m) = let rest = floor k m in if leb r.key k then some (later r rest) else rest

-- The entry after the one of the key `k`; `none` is `end()`.
unfoldable pub next : ℕ → List Region → Option Region
next k [] = none
next k (r ∷ m) = let rest = next k m in if ltb k r.key then some (earlier r rest) else rest

-- `v2p_map` and `p2v_map`.
pub record Maps : Type 0 where
  pub v2p : List Region
  pub p2v : List Region

-- 0 and -INVALID_ARGUMENT.
pub data Code : Type 0 where
  done invalid_argument : Code

abbrev pub u64 : ℕ → ℕ
u64 x = x % 2 ^ 64

abbrev pub region : ℕ → ℕ → ℕ → Region
region key target size = record { key = key; target = target; size = size }

-- Whether a region that ends at `end` runs into the entry after it.
abbrev pub conflicts : ℕ → Option Region → Bool
conflicts end none = false
conflicts end (some q) = ltb q.key end

abbrev pub register_new : Maps → ℕ → ℕ → ℕ → List Region → Code × Maps
register_new m addr paddr size v2p =
    if conflicts (u64 (addr + size)) (next addr v2p)
    then (invalid_argument, record m { v2p = erase addr v2p })
    else (done, record { v2p = v2p; p2v = put (region paddr addr size) m.p2v })

abbrev pub register_if : Option Region → Maps → ℕ → ℕ → ℕ → Code × Maps
register_if (some r) m addr paddr size = (done, m)
register_if none m addr paddr size =
    register_new m addr paddr size (put (region addr paddr size) m.v2p)

unfoldable pub register : Maps → ℕ → ℕ → ℕ → Code × Maps
register m addr paddr size = register_if (find addr m.v2p) m addr paddr size

-- The new entries, and the physical one of the old address out of the way first.
abbrev pub update_found : Region → Option Region → Maps → ℕ → ℕ → ℕ → Code × Maps
update_found r none m addr paddr size = (invalid_argument, m)
update_found r (some q) m addr paddr size =
    if q.key == paddr
    then (
      done,
      record {
        v2p = put (region addr r.target size) m.v2p;
        p2v = put (region q.key q.target size) m.p2v;
      },
    )
    else (
      done,
      record {
        v2p = put (region addr paddr size) m.v2p;
        p2v = put (region paddr addr size) (erase q.key m.p2v);
      },
    )

abbrev pub update_if : Option Region → Maps → ℕ → ℕ → ℕ → Code × Maps
update_if none m addr paddr size = (invalid_argument, m)
update_if (some r) m addr paddr size = update_found r (find r.target m.p2v) m addr paddr size

unfoldable pub register_update : Maps → ℕ → ℕ → ℕ → Code × Maps
register_update m addr paddr size = update_if (find addr m.v2p) m addr paddr size

abbrev pub unregister_if : Option Region → Maps → ℕ → Maps
unregister_if none m vaddr = m
unregister_if (some r) m vaddr = record { v2p = erase vaddr m.v2p; p2v = erase r.target m.p2v }

unfoldable pub unregister : Maps → ℕ → Maps
unregister m vaddr = unregister_if (find vaddr m.v2p) m vaddr

unfoldable pub unregister_all : Maps → Maps
unregister_all m = record { v2p = []; p2v = [] }

-- Whether an address lies in the entry that `floor` found.
abbrev pub is_inside : ℕ → Option Region → Bool
is_inside va none = false
is_inside va (some r) = ltb (va - r.key) r.size

unfoldable pub register_check : Maps → ℕ → Bool
register_check m va = is_inside va (floor va m.v2p)

-- The translated address, 0 where there is none, and the length that is left of `len`.
abbrev pub v2p_at : ℕ → ℕ → Option Region → ℕ × ℕ
v2p_at va len none = (0, len)
v2p_at va len (some r) =
    let offset = va - r.key in
    if ltb offset r.size
    then (u64 (r.target + offset), if ltb (r.size - offset) len then r.size - offset else len)
    else (0, len)

unfoldable pub mmap_v2p : Maps → ℕ → ℕ → ℕ × ℕ
mmap_v2p m va len = v2p_at va len (floor va m.v2p)

abbrev pub p2v_at : ℕ → Option Region → ℕ
p2v_at pa none = 0
p2v_at pa (some r) =
    let offset = pa - r.key in if ltb offset r.size then u64 (r.target + offset) else 0

unfoldable pub mmap_p2v : Maps → ℕ → ℕ
mmap_p2v m pa64 = p2v_at pa64 (floor pa64 m.p2v)
