-- ===== src/Manager/Room.antt =====
-- What a successful check of the memory shows.
use hardware_drivers.Prelude.{
  ℕ, zero, suc, ◌+◌, ◌-◌, ◌%◌, ◌^◌, ◌≤◌, ◌<◌, ◌≡◌, refl, true, false, Bool-cases, some, inl, inr,
  ℕ_discrete, ltb, arith,
}
use hardware_drivers.Manager.{
  Managers, Child, check_health, get_socket_sum, check_sockets, check_memory,
}
use hardware_drivers.Manager.Shrinks.{
  taken, Fits, Shrinks, check_health-Shrinks, Shrinks-trans, Shrinks-Fits,
}

-- The comparison without a sign, where the difference is not negative.
room_left :
    (sum later limit wanted : ℕ)
    → sum ≤ limit
    → later ≤ sum
    → limit < 2 ^ 31
    → ltb ((limit + 2 ^ 32 - sum % 2 ^ 32) % 2 ^ 32) wanted ≡ false
    → later + wanted ≤ limit
room_left sum later limit wanted a b c e = ground arith

-- What a check of the memory that succeeds has found.
check_sockets-room :
    (wait : ℕ → ℕ → Child) (left i : ℕ) (m : Managers) (limits : ℕ → ℕ)
    → Fits m
    → i + left ≤ m.socket_num
    → Shrinks wait m (check_sockets wait left i m limits).1
      × ((check_sockets wait left i m limits).0 ≡ true
          → (s : ℕ) → i ≤ s
          → s < i + left
          → taken (check_sockets wait left i m limits).1 s + limits s ≤ m.socket_limit s)
unfolding check_sockets get_socket_sum
check_sockets-room wait zero i m limits f b = (
  record {
    limit = refl;
    sockets = refl;
    socket_limit = λ s. refl;
    less = λ s. omega arith;
    aged = λ i. inl (refl, refl, λ s. refl);
  },
  λ e s p q. absurd (omega arith),
)
check_sockets-room wait (suc left) i m limits f b =
    let m1 = check_health wait m in
    let sh = check_health-Shrinks wait m in
    let rest =
      check_sockets-room wait left (i + 1) m1 limits (Shrinks-Fits sh f)
        (omega (arith, b, sh.sockets)) in
    let available = (m1.socket_limit i + 2 ^ 32 - taken m1 i % 2 ^ 32) % 2 ^ 32 in
    elim (Bool-cases (ltb available (limits i))) [
      | inl e ↦ rw e (sh, λ x s p q. absurd (ground arith))
      | inr e ↦ rw e (
        Shrinks-trans sh rest.0,
        λ x s p q. elim (ℕ_discrete i s) [
          | yes y ↦ rw (← y) (
              room_left (taken m1 i) (taken (check_sockets wait left (i + 1) m1 limits).1 i)
                (m.socket_limit i) (limits i)
                (omega (arith, sh.less i, f.room i (omega (arith, b)))) (rest.0.less i)
                (f.small i (omega (arith, b))) e)
          | no n ↦ rest.1 x s (omega (arith, p, n)) (omega (arith, q))
        ],
      )
    ]

-- There is room for the pages that are asked for.
pub record HasRoom (m : Managers) (limits : ℕ → ℕ) : Type 0 where
  pub fits : Fits m
  pub room : (s : ℕ) → s < m.socket_num → taken m s + limits s ≤ m.socket_limit s

pub Shrinks-HasRoom :
    {wait : ℕ → ℕ → Child} {m m' : Managers} {limits : ℕ → ℕ}
    → Shrinks wait m m'
    → HasRoom m limits
    → HasRoom m' limits
Shrinks-HasRoom {wait} {m} {m'} x h = record {
  fits = Shrinks-Fits x h.fits;
  room = λ s p. omega (arith, x.less s, x.socket_limit s, h.room s (rw (← x.sockets) p));
}

pub check_memory-HasRoom :
    (wait : ℕ → ℕ → Child) (m : Managers) (limits : ℕ → ℕ)
    → Fits m
    → Shrinks wait m (check_memory wait m (some limits)).1
      × ((check_memory wait m (some limits)).0 ≡ true
          → HasRoom (check_memory wait m (some limits)).1 limits)
unfolding check_health
check_memory-HasRoom wait m limits f =
    let g = Shrinks-Fits (check_health-Shrinks wait m) f in
    let (x, room) =
      check_sockets-room wait m.socket_num 0 (check_health wait m) limits g (omega arith) in
    (
      Shrinks-trans (check_health-Shrinks wait m) x,
      λ e. record {
        fits = Shrinks-Fits x g;
        room = λ s p.
            omega (arith, x.socket_limit s, room e s (omega arith) (omega (arith, p, x.sockets)));
      },
    )
