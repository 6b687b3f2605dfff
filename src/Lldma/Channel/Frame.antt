-- ===== src/Lldma/Channel/Frame.antt =====
-- What the control of a channel leaves alone: everything but the registers and, when a queue is
-- started, the two heads of that queue.
use hardware_drivers.Prelude.{ℕ, zero, suc, ◌≡◌, ◌≢◌, refl, some, ap, ◌∙◌, arith}
use hardware_drivers.Bus.{Bus}
use hardware_drivers.Device.{
  Dev, Dir, QueueInfo, Side, enq, deq, queue_at, lldma_reg_read, lldma_reg_write,
}
use hardware_drivers.Lldma.Regs.{ch_sel, ch_ctrl0}
use hardware_drivers.Lldma.Channel.{
  drain_polls, queue_set_addr, queue_set_ctrl, start_channel, start_queue, start_side, set_buf,
  wait_drain, stop_queue,
}

-- A device but for its bus.
abbrev pub off_bus : Dev → Bus → Dev
off_bus d b = record d { bus = b }

pub queue_set_addr_frame :
    (virt_to_phys : ℕ → ℕ) (d : Dev) (chid : ℕ) (dir : Dir) (addr : ℕ) (b : Bus)
    → off_bus (queue_set_addr virt_to_phys d chid dir addr) b ≡ off_bus d b
unfolding queue_set_addr
queue_set_addr_frame v d chid dir addr b = ground arith

pub queue_set_ctrl_frame :
    (d : Dev) (chid : ℕ) (dir : Dir) (cid : ℕ) (b : Bus)
    → off_bus (queue_set_ctrl d chid dir cid) b ≡ off_bus d b
unfolding queue_set_ctrl
queue_set_ctrl_frame d chid dir cid b = ground arith

pub set_buf_frame :
    (d : Dev) (dir : Dir) (size addr : ℕ) (b : Bus)
    → off_bus (set_buf d dir size addr) b ≡ off_bus d b
unfolding set_buf
set_buf_frame d dir size addr b = refl

pub wait_drain_frame :
    (rounds : ℕ) (d : Dev) (dir : Dir) (b : Bus)
    → off_bus (wait_drain rounds d dir).1 b ≡ off_bus d b
unfolding wait_drain
wait_drain_frame zero d dir b = refl
wait_drain_frame (suc rounds) d dir b =
    ground (arith, wait_drain_frame rounds (lldma_reg_read d (ch_ctrl0 dir)).1 dir b)

-- The channel that the drain waits for: selected and closed.
unfoldable pub drain_start : Dev → ℕ → Dir → Dev
unfolding lldma_reg_write
drain_start d chid dir = lldma_reg_write (lldma_reg_write d (ch_sel dir) chid) (ch_ctrl0 dir) 0

pub stop_queue_frame :
    (d : Dev) (chid : ℕ) (dir : Dir) (b : Bus) → off_bus (stop_queue d chid dir).1 b ≡ off_bus d b
unfolding stop_queue drain_start
stop_queue_frame d chid dir b = wait_drain_frame drain_polls (drain_start d chid dir) dir b

-- A queue but for its two heads.
abbrev pub off_heads : QueueInfo → QueueInfo
off_heads q = record q { que = record (q.que) { readhead = 0; writehead = 0 } }

-- The state in which `start_channel` reads the pointer of the FPGA.
unfoldable pub programmed : (ℕ → ℕ) → Dev → ℕ → Dir → Dev
programmed v d chid dir = queue_set_ctrl (queue_set_addr v d chid dir 0) chid dir 255

programmed_frame :
    (v : ℕ → ℕ) (d : Dev) (chid : ℕ) (dir : Dir) (b : Bus)
    → off_bus (programmed v d chid dir) b ≡ off_bus d b
unfolding programmed
programmed_frame v d chid dir b =
    queue_set_ctrl_frame (queue_set_addr v d chid dir 0) chid dir 255 b
    ∙ queue_set_addr_frame v d chid dir 0 b

pub queue_at-off_bus :
    (s : Side) (d e : Dev) (c : ℕ) (b : Bus)
    → off_bus d b ≡ off_bus e b
    → queue_at s d c ≡ queue_at s e c
unfolding queue_at
queue_at-off_bus enq d e c b h = ap (λ x. x.enqueues c) h
queue_at-off_bus deq d e c b h = ap (λ x. x.dequeues c) h

module _ (v : ℕ → ℕ) (d : Dev) (chid : ℕ) (dir : Dir) where
  programmed_queue : (s : Side) (c : ℕ) → queue_at s (programmed v d chid dir) c ≡ queue_at s d c
  programmed_queue s c =
      queue_at-off_bus s (programmed v d chid dir) d c d.bus (programmed_frame v d chid dir d.bus)

  start_channel_heads :
      (side : Side) (enable : ℕ) (s : Side) (c : ℕ)
      → off_heads (queue_at s (start_channel v d chid dir side enable) c)
        ≡ off_heads (queue_at s d c)
  unfolding start_channel programmed
  start_channel_heads enq enable enq c = ground (arith, programmed_queue enq c)
  start_channel_heads enq enable deq c = ground (arith, programmed_queue deq c)
  start_channel_heads deq enable enq c = ground (arith, programmed_queue enq c)
  start_channel_heads deq enable deq c = ground (arith, programmed_queue deq c)

  start_channel_other :
      (side : Side) (enable : ℕ) (s : Side) (c : ℕ)
      → c ≢ chid
      → queue_at s (start_channel v d chid dir side enable) c ≡ queue_at s d c
  unfolding start_channel programmed
  start_channel_other enq enable enq c h = ground (arith, programmed_queue enq c)
  start_channel_other enq enable deq c h = ground (arith, programmed_queue deq c)
  start_channel_other deq enable enq c h = ground (arith, programmed_queue enq c)
  start_channel_other deq enable deq c h = ground (arith, programmed_queue deq c)

  start_channel_across :
      (side : Side) (enable : ℕ) (s : Side) (c : ℕ)
      → s ≢ side
      → queue_at s (start_channel v d chid dir side enable) c ≡ queue_at s d c
  unfolding start_channel programmed
  start_channel_across enq enable enq c h = absurd (h refl)
  start_channel_across enq enable deq c h = ground (arith, programmed_queue deq c)
  start_channel_across deq enable enq c h = ground (arith, programmed_queue enq c)
  start_channel_across deq enable deq c h = absurd (h refl)

  start_channel_count :
      (side : Side) (enable : ℕ)
      → (start_channel v d chid dir side enable).available_dma_channel_num
        ≡ d.available_dma_channel_num
  unfolding start_channel programmed
  start_channel_count enq enable =
      ap (λ x. x.available_dma_channel_num) (programmed_frame v d chid dir d.bus)
  start_channel_count deq enable =
      ap (λ x. x.available_dma_channel_num) (programmed_frame v d chid dir d.bus)

  -- Starting a queue changes no queue but for its heads.
  pub start_queue_heads :
      (s : Side) (c : ℕ)
      → off_heads (queue_at s (start_queue v d chid dir) c) ≡ off_heads (queue_at s d c)
  unfolding start_queue
  start_queue_heads s c = ground (
    arith,
    start_channel_heads enq 3 s c,
    start_channel_heads enq 2 s c,
    start_channel_heads deq 3 s c,
    start_channel_heads deq 1 s c,
  )

  -- It leaves the queues of other channels as they are,
  pub start_queue_other :
      (s : Side) (c : ℕ) → c ≢ chid → queue_at s (start_queue v d chid dir) c ≡ queue_at s d c
  unfolding start_queue
  start_queue_other s c h = ground (
    arith,
    start_channel_other enq 3 s c,
    start_channel_other enq 2 s c,
    start_channel_other deq 3 s c,
    start_channel_other deq 1 s c,
  )

  -- and the queue of the same channel in the other direction.
  pub start_queue_across :
      (side : Side) (enable : ℕ) (s : Side) (c : ℕ)
      → start_side dir ≡ some (side, enable)
      → s ≢ side
      → queue_at s (start_queue v d chid dir) c ≡ queue_at s d c
  unfolding start_queue
  start_queue_across side enable s c e h = ground (arith, start_channel_across side enable s c h)

  pub start_queue_count :
      (start_queue v d chid dir).available_dma_channel_num ≡ d.available_dma_channel_num
  unfolding start_queue
  start_queue_count = ground (
    arith,
    start_channel_count enq 3,
    start_channel_count enq 2,
    start_channel_count deq 3,
    start_channel_count deq 1,
  )
