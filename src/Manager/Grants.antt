-- ===== src/Manager/Grants.antt =====
-- What a call of `fpga_shmem_manager_init` does to the table of managers when it grants pages.
use hardware_drivers.Prelude.{
  ℕ, zero, suc, ◌+◌, ◌<◌, ◌≡◌, ◌≢◌, ◌⊎◌, refl, ap, subst, false, Bool-cases, Option, none, some,
  List, inl, inr, length, ◌==◌, update, arith,
}
use hardware_drivers.Manager.{
  ManagerInfo, Managers, Child, check_health, free_from, with_limits, set_manager_info,
  hugepage_prefix_max, ManagerRet, done, with_report,
}
use hardware_drivers.Manager.Shrinks.{
  Fits, Aged, Shrinks, Shrinks-trans, total-le, total-update, check_health-Shrinks,
}
use hardware_drivers.Manager.Room.{HasRoom, Shrinks-HasRoom}

-- A new manager has the entry `index`, which was free or has become so, with its prefix and its
-- pages, and the other entries are as before or empty because their children have exited.
pub record Granted (wait : ℕ → ℕ → Child) (m m' : Managers) (prefix : List ℕ) (limits : ℕ → ℕ)
    : Type 0 where
  pub index : ℕ
  pub below : index < m.available_limit
  pub before : ManagerInfo
  pub freed : Aged wait (m.infos index) before
  pub unused : length before.file_prefix ≡ 0
  pub named : (m'.infos index).file_prefix ≡ prefix
  pub pages : (s : ℕ) → s < m.socket_num → (m'.infos index).socket_limit s ≡ limits s
  pub others : (j : ℕ) → j ≢ index → Aged wait (m.infos j) (m'.infos j)

-- A call has ended: it has granted its pages and returned 0, or has granted none.
abbrev pub Ends :
    (ℕ → ℕ → Child) → Managers → List ℕ → (ℕ → ℕ) → Option (ManagerRet × Managers) → Type 0
Ends wait m prefix limits o =
    (r : ManagerRet) × (m' : Managers) × (o ≡ some (r, m'))
    × Fits m'
    × (((r ≡ done) × Granted wait m m' prefix limits) ⊎ ((r ≢ done) × Shrinks wait m m'))

pub free_from-free :
    (left i k : ℕ) (m : Managers)
    → free_from left i m ≡ some k
    → (length (m.infos k).file_prefix ≡ 0) × (k < i + left)
unfolding free_from
free_from-free zero i k m e = absurd (ground arith)
free_from-free (suc left) i k m e = elim (Bool-cases (length (m.infos i).file_prefix == 0)) [
  | inl b ↦
      let same : i ≡ k = ground arith in
      (ground (arith, b, ap (λ (x : ℕ). length (m.infos x).file_prefix) same), omega (arith, same))
  | inr b ↦
      let (p, q) = free_from-free left (i + 1) k m (ground (arith, e, b)) in (p, omega (arith, q))
]

-- The report of the child changes neither the prefix nor the pages.
pub with_report-Aged :
    (wait : ℕ → ℕ → Child) (report : Option ℕ) (i : ManagerInfo)
    → Aged wait i (with_report report i)
with_report-Aged wait none i = inl (refl, refl, λ s. refl)
with_report-Aged wait (some n) i = inl (refl, refl, λ s. refl)

pub with_report-pages :
    (report : Option ℕ) (i : ManagerInfo) (s : ℕ)
    → (with_report report i).socket_limit s ≡ i.socket_limit s
with_report-pages none i s = refl
with_report-pages (some n) i s = refl

-- A change of an entry that leaves its pages.
pub update-Shrinks :
    (wait : ℕ → ℕ → Child) (m : Managers) (index : ℕ) (info : ManagerInfo)
    → Aged wait (m.infos index) info
    → ((s : ℕ) → info.socket_limit s ≡ (m.infos index).socket_limit s)
    → Shrinks wait m (record m { infos = update m.infos index info })
update-Shrinks wait m index info a e = record {
  limit = refl;
  sockets = refl;
  socket_limit = λ s. refl;
  less = λ s.
      total-le m.available_limit (λ i. (m.infos i).socket_limit s)
        (λ i. (update m.infos index info i).socket_limit s)
        (λ i. ground (arith, e s, ap (λ x. (m.infos x).socket_limit s)));
  aged = λ i. elim (Bool-cases (index == i)) [
    | inl b ↦
        let same : index ≡ i = ground (arith, b) in
        rw b (subst (λ x. Aged wait (m.infos x) info) same a)
    | inr b ↦ rw b (inl (refl, refl, λ s. refl))
  ];
}

-- A new entry takes the pages that are asked for.
set_entry-Fits :
    (m : Managers) (index : ℕ) (limits : ℕ → ℕ) (info : ManagerInfo)
    → HasRoom m limits
    → 0 < length info.file_prefix
    → ((s : ℕ) → info.socket_limit s ≡ (m.infos index).socket_limit s)
    → Fits (record m { infos = update m.infos index (with_limits m.socket_num (some limits) info) })
set_entry-Fits m index limits info h n e = record {
  room = λ s p.
      let less =
        total-update m.available_limit index (limits s) (λ i. (m.infos i).socket_limit s)
          (λ i.
            (update m.infos index (with_limits m.socket_num (some limits) info) i).socket_limit s)
          (λ i. ground (arith, p)) in
      omega (arith, less, h.room s p);
  vacant = λ i. elim (Bool-cases (index == i)) [
    | inl b ↦ rw b (λ z s. absurd (omega (arith, n, z)))
    | inr b ↦ rw b (h.fits.vacant i)
  ];
  small = h.fits.small;
}

ne_test : (i j : ℕ) → j ≢ i → (i == j) ≡ false
ne_test i j n = ground arith

-- The entry is written.
pub set_manager_info-Ends :
    (wait : ℕ → ℕ → Child) (m0 m : Managers) (index : ℕ) (prefix : List ℕ) (pid : ℕ)
    (limits : ℕ → ℕ) (before : ManagerInfo)
    → Shrinks wait m0 m
    → HasRoom m limits
    → 0 < length prefix
    → length prefix < hugepage_prefix_max
    → index < m0.available_limit
    → Aged wait (m0.infos index) before
    → length before.file_prefix ≡ 0
    → (m' : Managers) × (set_manager_info wait m index prefix pid (some limits) ≡ some m')
      × Fits m'
      × Granted wait m0 m' prefix limits
unfolding set_manager_info
set_manager_info-Ends wait m0 m index prefix pid limits before sh h some_name short b a u =
    let m1 = check_health wait m in
    let sh1 = check_health-Shrinks wait m in
    let all = Shrinks-trans sh sh1 in
    let info = record (m1.infos index) { file_prefix = prefix; pid = pid } in
    let new = with_limits m1.socket_num (some limits) info in
    (
      record m1 { infos = update m1.infos index new },
      ground (arith, short),
      set_entry-Fits m1 index limits info (Shrinks-HasRoom sh1 h) some_name (λ s. refl),
      record {
        index = index;
        below = b;
        before = before;
        freed = a;
        unused = u;
        named = ground arith;
        pages = λ s p. ground (arith, p, all.sockets);
        others = λ j n. rw (ne_test index j n) (all.aged j);
      },
    )
