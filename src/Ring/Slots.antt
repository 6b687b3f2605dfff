-- ===== src/Ring/Slots.antt =====
-- Positions of a ring: the place of the entry `k` after the head `r`, among `n` slots.
use hardware_drivers.Prelude.{
  ℕ, suc, ◌+◌, ◌-◌, ◌^◌, ◌<◌, ◌≤◌, ◌≡◌, ◌≢◌, arith, ltb, if◌then◌else◌, ◌==◌,
}
use hardware_drivers.Ring.Transfer.{next_head}

abbrev pub place : ℕ → ℕ → ℕ → ℕ
place n r k = if ltb (r + k) n then r + k else r + k - n

pub place_lt : (n r k : ℕ) → r < n → k < n → place n r k < n
place_lt n r k p q = ground arith

pub place_ne : (n r j k : ℕ) → r < n → j < n → k < n → j ≢ k → place n r j ≢ place n r k
place_ne n r j k a b c h = ground arith

pub place_zero : (n r : ℕ) → r < n → place n r 0 ≡ r
place_zero n r h = ground arith

pub next_head_lt : (n r : ℕ) → r < n → n < 2 ^ 16 → next_head n r < n
unfolding next_head
next_head_lt n r h s = ground arith

pub next_head-place :
    (n r k : ℕ)
    → r < n
    → k < n
    → n < 2 ^ 16
    → next_head n (place n r k) ≡ (if suc k == n then r else place n r (suc k))
unfolding next_head
next_head-place n r k h q s = ground arith

pub place-next_head :
    (n r k : ℕ) → r < n → suc k ≤ n → n < 2 ^ 16 → place n (next_head n r) k ≡ place n r (suc k)
unfolding next_head
place-next_head n r k h q s = ground arith
