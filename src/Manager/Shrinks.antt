-- ===== src/Manager/Shrinks.antt =====
-- The huge pages that are taken, and that a health check only gives pages back.
use hardware_drivers.Prelude.{
  ℕ, zero, suc, ◌+◌, ◌^◌, ◌≤◌, ◌<◌, ◌≡◌, ◌⊎◌, refl, sym, ap, ◌∙◌, Bool-cases, inl, inr, length, ltb,
  ◌==◌, if◌then◌else◌, arith,
}
use hardware_drivers.Manager.{
  ManagerInfo, Managers, Child, running, exited, killed, check_child, check_info, check_health,
  total,
}

-- The pages of a socket that the managers have.
abbrev pub taken : Managers → ℕ → ℕ
taken m s = total m.available_limit (λ i. (m.infos i).socket_limit s)

-- An entry whose prefix is empty, and so is taken as free, has no pages.
abbrev IsVacant : ManagerInfo → Type 0
IsVacant i = length i.file_prefix ≡ 0 → (s : ℕ) → i.socket_limit s ≡ 0

-- The pages of all managers are at most those of the socket, and none of them is in an entry that
-- counts as free.
pub record Fits (m : Managers) : Type 0 where
  pub room : (s : ℕ) → s < m.socket_num → taken m s ≤ m.socket_limit s
  pub vacant : (i : ℕ) → IsVacant (m.infos i)
  pub small : (s : ℕ) → s < m.socket_num → m.socket_limit s < 2 ^ 31

-- An entry keeps its prefix, its child and its pages, or it is empty: its child has exited.
abbrev pub Aged : (ℕ → ℕ → Child) → ManagerInfo → ManagerInfo → Type 0
Aged wait i i' =
    ((i'.file_prefix ≡ i.file_prefix)
      × (i'.pid ≡ i.pid)
      × ((s : ℕ) → i'.socket_limit s ≡ i.socket_limit s))
    ⊎ ((n : ℕ) × (wait n i.pid ≡ exited)
        × (length i'.file_prefix ≡ 0)
        × ((s : ℕ) → i'.socket_limit s ≡ 0))

Aged-IsVacant :
    (wait : ℕ → ℕ → Child) (i i' : ManagerInfo) → Aged wait i i' → IsVacant i → IsVacant i'
Aged-IsVacant wait i i' (inl (p, q, l)) v e s = l s ∙ v (sym (ap length p) ∙ e) s
Aged-IsVacant wait i i' (inr (n, x, p, l)) v e s = l s

pub Aged-trans :
    (wait : ℕ → ℕ → Child) (i j k : ManagerInfo) → Aged wait i j → Aged wait j k → Aged wait i k
Aged-trans wait i j k (inl (p, q, l)) (inr (n, x, b, c)) = inr (n, ap (wait n) (sym q) ∙ x, b, c)
Aged-trans wait i j k (inr a) (inr b) = inr (a.0, a.1, b.2, b.3)
Aged-trans wait i j k (inl (p, q, l)) (inl (p', q', l')) = inl (p' ∙ p, q' ∙ q, λ s. l' s ∙ l s)
Aged-trans wait i j k (inr (n, x, p, l)) (inl (p', q', l')) =
    inr (n, x, ap length p' ∙ p, λ s. l' s ∙ l s)

-- The same limits, and no more pages taken.
pub record Shrinks (wait : ℕ → ℕ → Child) (m m' : Managers) : Type 0 where
  pub limit : m'.available_limit ≡ m.available_limit
  pub sockets : m'.socket_num ≡ m.socket_num
  pub socket_limit : (s : ℕ) → m'.socket_limit s ≡ m.socket_limit s
  pub less : (s : ℕ) → taken m' s ≤ taken m s
  pub aged : (i : ℕ) → Aged wait (m.infos i) (m'.infos i)

pub total-le : (n : ℕ) (f g : ℕ → ℕ) → ((i : ℕ) → g i ≤ f i) → total n g ≤ total n f
unfolding total
total-le zero f g h = omega arith
total-le (suc n) f g h = omega (arith, total-le n f g h, h n)

total-below : (n : ℕ) (f g : ℕ → ℕ) → ((i : ℕ) → i < n → g i ≤ f i) → total n g ≤ total n f
unfolding total
total-below zero f g h = omega arith
total-below (suc n) f g h =
    omega (arith, total-below n f g (λ i p. h i (omega (arith, p))), h n (omega arith))

-- A change of one entry adds at most what the entry has afterwards.
pub total-update :
    (n k v : ℕ) (f g : ℕ → ℕ)
    → ((i : ℕ) → g i ≤ (if k == i then v else f i))
    → total n g ≤ total n f + v
unfolding total
total-update zero k v f g h = omega arith
total-update (suc n) k v f g h = elim (Bool-cases (k == n)) [
  | inl e ↦
      let below : total n g ≤ total n f = total-below n f g (λ i p. ground (arith, h i, e, p)) in
      ground (arith, below, h n)
  | inr e ↦ ground (arith, total-update n k v f g h, h n)
]

check_info-le :
    (wait : ℕ → Child) (i : ManagerInfo) (s : ℕ)
    → (check_info wait i).socket_limit s ≤ i.socket_limit s
check_info-le wait i s = elim (Bool-cases (i.pid == 0)) [
  | inl e ↦ rw e (omega arith)
  | inr e ↦ rw e (check_child-le (wait i.pid))
]
  where
    check_child-le : (c : Child) → (check_child c i).socket_limit s ≤ i.socket_limit s
    check_child-le running = omega arith
    check_child-le exited = omega arith
    check_child-le killed = omega arith

check_child-Aged :
    (wait : ℕ → ℕ → Child) (n : ℕ) (i : ManagerInfo) (c : Child)
    → wait n i.pid ≡ c
    → Aged wait i (check_child c i)
check_child-Aged wait n i running e = inl (refl, refl, λ s. refl)
check_child-Aged wait n i exited e = inr (n, e, refl, λ s. refl)
check_child-Aged wait n i killed e = inl (refl, refl, λ s. refl)

check_info-Aged :
    (wait : ℕ → ℕ → Child) (n : ℕ) (i : ManagerInfo) → Aged wait i (check_info (wait n) i)
check_info-Aged wait n i = elim (Bool-cases (i.pid == 0)) [
  | inl e ↦ rw e (inl (refl, refl, λ s. refl))
  | inr e ↦ rw e (check_child-Aged wait n i (wait n i.pid) refl)
]

pub check_health-Shrinks :
    (wait : ℕ → ℕ → Child) (m : Managers) → Shrinks wait m (check_health wait m)
unfolding check_health
check_health-Shrinks wait m = record {
  limit = refl;
  sockets = refl;
  socket_limit = λ s. refl;
  less = λ s.
      total-le m.available_limit _ _
        (λ i. ground (arith, check_info-le (wait m.checks) (m.infos i) s));
  aged = λ i. elim (Bool-cases (ltb i m.available_limit)) [
    | inl e ↦ rw e (check_info-Aged wait m.checks (m.infos i))
    | inr e ↦ rw e (inl (refl, refl, λ s. refl))
  ];
}

pub Shrinks-trans :
    {wait : ℕ → ℕ → Child} {a b c : Managers}
    → Shrinks wait a b
    → Shrinks wait b c
    → Shrinks wait a c
Shrinks-trans {wait} {a} {b} {c} x y = record {
  limit = y.limit ∙ x.limit;
  sockets = y.sockets ∙ x.sockets;
  socket_limit = λ s. y.socket_limit s ∙ x.socket_limit s;
  less = λ s. omega (arith, x.less s, y.less s);
  aged = λ i. Aged-trans wait (a.infos i) (b.infos i) (c.infos i) (x.aged i) (y.aged i);
}

pub Shrinks-Fits : {wait : ℕ → ℕ → Child} {m m' : Managers} → Shrinks wait m m' → Fits m → Fits m'
Shrinks-Fits {wait} {m} {m'} x f = record {
  room = λ s h. omega (arith, x.less s, x.socket_limit s, f.room s (rw (← x.sockets) h));
  vacant = λ i. Aged-IsVacant wait (m.infos i) (m'.infos i) (x.aged i) (f.vacant i);
  small = λ s h. omega (arith, x.socket_limit s, f.small s (rw (← x.sockets) h));
}
