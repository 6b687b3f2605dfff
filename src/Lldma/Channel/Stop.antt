-- ===== src/Lldma/Channel/Stop.antt =====
-- Stopping a queue: what the 30 polls of `xpcie_fpga_stop_queue` decide.
use hardware_drivers.Prelude.{
  ℕ, zero, suc, ◌<◌, ◌≡◌, ◌≢◌, refl, Bool, true, false, inl, inr, ◌==◌, ==_iff, Bool-cases, arith,
}
use hardware_drivers.Device.{Dev, Dir, Ret, ok, err, efault, lldma_reg_read, lldma_reg_write}
use hardware_drivers.Lldma.Regs.{ch_ctrl0}
use hardware_drivers.Lldma.Channel.{drain_polls, wait_drain, stop_queue}
use hardware_drivers.Lldma.Channel.Frame.{drain_start}

-- The device after `k` polls, and what the next poll reads.
pub polled : ℕ → Dev → Dir → Dev
polled zero d dir = d
polled (suc k) d dir = polled k (lldma_reg_read d (ch_ctrl0 dir)).1 dir

abbrev pub busy_at : Dev → Dir → ℕ → ℕ
busy_at d dir k = (lldma_reg_read (polled k d dir) (ch_ctrl0 dir)).0

-- What a loop of `rounds` polls may answer.
pub data Drain (rounds : ℕ) (d : Dev) (dir : Dir) (r : Bool × Dev) : Type 0 where
  drained :
      (k : ℕ)
      → k < rounds
      → busy_at d dir k ≡ 0
      → ((j : ℕ) → j < k → busy_at d dir j ≢ 0)
      → r ≡ (true, polled (suc k) d dir)
      → Drain rounds d dir r
  timed_out :
      ((j : ℕ) → j < rounds → busy_at d dir j ≢ 0)
      → r ≡ (false, polled rounds d dir)
      → Drain rounds d dir r

ne_of_test : (n : ℕ) → (n == 0) ≡ false → n ≢ 0
ne_of_test n h = ground arith

busy_later :
    (d : Dev) (dir : Dir) (k : ℕ)
    → busy_at d dir 0 ≢ 0
    → ((j : ℕ) → j < k → busy_at (lldma_reg_read d (ch_ctrl0 dir)).1 dir j ≢ 0)
    → (j : ℕ) → j < suc k
    → busy_at d dir j ≢ 0
unfolding polled
busy_later d dir k now later zero h = now
busy_later d dir k now later (suc j) h = later j (omega arith)

wait_drain_later :
    (rounds : ℕ) (d : Dev) (dir : Dir) {r : Bool × Dev}
    → busy_at d dir 0 ≢ 0
    → Drain rounds (lldma_reg_read d (ch_ctrl0 dir)).1 dir r
    → Drain (suc rounds) d dir r
unfolding polled
wait_drain_later rounds d dir now (drained k h z before e) =
    drained (suc k) (omega arith) z (busy_later d dir k now before) e
wait_drain_later rounds d dir now (timed_out before e) =
    timed_out (busy_later d dir rounds now before) e

pub wait_drain_Drain :
    (rounds : ℕ) (d : Dev) (dir : Dir) → Drain rounds d dir (wait_drain rounds d dir)
unfolding wait_drain polled
wait_drain_Drain zero d dir = timed_out (λ j h. elim h [ ]) refl
wait_drain_Drain (suc rounds) d dir = elim (Bool-cases ((lldma_reg_read d (ch_ctrl0 dir)).0 == 0)) [
  | inl z ↦ drained 0 (omega arith) ((==_iff _ 0).0 z) (λ j h. elim h [ ]) (rw z)
  | inr nz ↦ rw nz (wait_drain_later rounds d dir (ne_of_test _ nz) (wait_drain_Drain rounds _ dir))
]

abbrev pub drain_result : Bool → Ret
drain_result true = ok
drain_result false = err efault

-- `xpcie_fpga_stop_queue` selects the channel and shuts both gates, polls its busy word at most 30
-- times and stops polling at the first 0, writes the clear command in either case, and returns 0
-- exactly when a poll read 0, -EFAULT otherwise.
pub stop_queue_drains :
    (d : Dev) (chid : ℕ) (dir : Dir)
    → (r : Bool × Dev) × Drain drain_polls (drain_start d chid dir) dir r
      × (stop_queue d chid dir ≡ (drain_result r.0, lldma_reg_write r.1 (ch_ctrl0 dir) 4))
unfolding stop_queue drain_start
stop_queue_drains d chid dir = (
  wait_drain drain_polls (drain_start d chid dir) dir,
  wait_drain_Drain drain_polls (drain_start d chid dir) dir,
  ground arith,
)
