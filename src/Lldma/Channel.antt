-- ===== src/Lldma/Channel.antt =====
-- Control of one DMA channel, driver/lldma/libxpcie_lldma.c: `queue_set_addr`, `queue_set_ctrl`,
-- `xpcie_fpga_start_queue`, `xpcie_fpga_set_buf` and `xpcie_fpga_stop_queue`.
-- `virt_to_phys` is the kernel's; a poll that sleeps is one more access in the bus's history.
pub mod Frame
pub mod Program
pub mod Stop
use hardware_drivers.Prelude.{
  ℕ, zero, suc, ◌+◌, ◌*◌, ◌/◌, ◌%◌, ◌^◌, Bool, true, false, Option, none, some, if◌then◌else◌, ◌==◌,
  leb, bit_or,
}
use hardware_drivers.Device.{
  Dev, Dir, host_to_dev, dev_to_host, nw_to_dev, dev_to_nw, d2d_rx, d2d_tx, d2d_d_rx, d2d_d_tx,
  other_dir, Que, QueueInfo, Side, enq, deq, queue_at, set_queue, Ret, ok, err, efault,
  lldma_reg_read, lldma_reg_write,
}
use hardware_drivers.Lldma.Regs.{
  ch_sel, ch_ctrl0, ch_ctrl1, q_ctrl, q_addr_dn, q_addr_up, buf_addr_dn, buf_addr_up, buf_size,
  enable_ie, enable_oe, enable_clear, ctrl1_host, ctrl1_d2d_h, ctrl1_d2d_d,
}

-- The ring stands behind the 64 bytes of `fpga_queue_t`.
abbrev pub ring_addr : Que → ℕ
ring_addr q = q.base + 64

-- The address that `queue_set_addr` programs; `none` where the switch returns.
unfoldable pub queue_phys_addr : (ℕ → ℕ) → Dev → ℕ → Dir → ℕ → Option ℕ
queue_phys_addr virt_to_phys d chid host_to_dev addr =
    some (virt_to_phys (ring_addr (d.enqueues chid).que))
queue_phys_addr virt_to_phys d chid dev_to_host addr =
    some (virt_to_phys (ring_addr (d.dequeues chid).que))
queue_phys_addr virt_to_phys d chid d2d_rx addr = if addr == 0 then none else some addr
queue_phys_addr virt_to_phys d chid d2d_d_rx addr = if addr == 0 then none else some addr
queue_phys_addr virt_to_phys d chid d2d_tx addr = if addr == 0 then none else some addr
queue_phys_addr virt_to_phys d chid d2d_d_tx addr = if addr == 0 then none else some addr
queue_phys_addr virt_to_phys d chid _ addr = none

-- The writes at the end of `queue_set_addr`: the channel, then the two halves of the address.
unfoldable pub write_queue_addr : Dev → ℕ → Dir → ℕ → Dev
unfolding lldma_reg_write
write_queue_addr d chid dir phys_addr =
    let d1 = lldma_reg_write d (ch_sel dir) chid in
    let d2 = lldma_reg_write d1 (q_addr_up dir) (phys_addr / 2 ^ 32 % 2 ^ 32) in
    lldma_reg_write d2 (q_addr_dn dir) (phys_addr % 2 ^ 32)

unfoldable pub queue_set_addr : (ℕ → ℕ) → Dev → ℕ → Dir → ℕ → Dev
unfolding queue_phys_addr write_queue_addr
queue_set_addr virt_to_phys d chid dir addr =
    if leb d.available_dma_channel_num chid
    then d
    else elim (queue_phys_addr virt_to_phys d chid dir addr) [
      | none ↦ d
      | some phys_addr ↦ write_queue_addr d chid dir phys_addr
    ]

-- `q_ctrl` and `ch_ctrl1` of `queue_set_ctrl`; `none` where the switch returns.
unfoldable pub queue_ctrl_words : Dev → ℕ → Dir → ℕ → Option (ℕ × ℕ)
queue_ctrl_words d chid host_to_dev cid = some ((d.enqueues chid).que.size * 2 ^ 8, ctrl1_host)
queue_ctrl_words d chid dev_to_host cid = some ((d.dequeues chid).que.size * 2 ^ 8, ctrl1_host)
queue_ctrl_words d chid d2d_rx cid = if cid == 255 then none else some (cid * 2 ^ 8, ctrl1_d2d_h)
queue_ctrl_words d chid d2d_tx cid = if cid == 255 then none else some (cid * 2 ^ 8, ctrl1_d2d_h)
queue_ctrl_words d chid d2d_d_rx cid = if cid == 255 then none else some (cid * 2 ^ 8, ctrl1_d2d_d)
queue_ctrl_words d chid d2d_d_tx cid = if cid == 255 then none else some (cid * 2 ^ 8, ctrl1_d2d_d)
queue_ctrl_words d chid _ cid = none

unfoldable pub write_queue_ctrl : Dev → ℕ → Dir → ℕ → ℕ → Dev
unfolding lldma_reg_write
write_queue_ctrl d chid dir ctrl mode =
    let d1 = lldma_reg_write d (ch_sel dir) chid in
    let d2 = lldma_reg_write d1 (q_ctrl dir) ctrl in lldma_reg_write d2 (ch_ctrl1 dir) mode

unfoldable pub queue_set_ctrl : Dev → ℕ → Dir → ℕ → Dev
unfolding queue_ctrl_words write_queue_ctrl
queue_set_ctrl d chid dir cid =
    if leb d.available_dma_channel_num chid then d else elim (queue_ctrl_words d chid dir cid) [
      | none ↦ d
      | some (ctrl, mode) ↦ write_queue_ctrl d chid dir ctrl mode
    ]

-- The switch of `xpcie_fpga_start_queue`: which array, and the gates that it opens.
unfoldable pub start_side : Dir → Option (Side × ℕ)
start_side host_to_dev = some (enq, bit_or enable_ie enable_oe)
start_side nw_to_dev = some (enq, enable_oe)
start_side dev_to_host = some (deq, bit_or enable_ie enable_oe)
start_side dev_to_nw = some (deq, enable_ie)
start_side _ = none

-- Both heads are set to the FPGA's own pointer, bits 31 to 24 of the queue control register.
abbrev pub set_heads : QueueInfo → ℕ → QueueInfo
set_heads q word = record q {
  que = record (q.que) { readhead = word / 2 ^ 24 % 256; writehead = word / 2 ^ 24 % 256 };
}

-- `xpcie_fpga_start_queue` behind its guards.
unfoldable pub start_channel : (ℕ → ℕ) → Dev → ℕ → Dir → Side → ℕ → Dev
unfolding lldma_reg_write lldma_reg_read queue_at set_queue
start_channel virt_to_phys d chid dir side enable =
    let d1 = queue_set_addr virt_to_phys d chid dir 0 in
    let d2 = queue_set_ctrl d1 chid dir 255 in
    let d3 = lldma_reg_write d2 (ch_sel dir) chid in
    let (word, d4) = lldma_reg_read d3 (q_ctrl dir) in
    let d5 = set_queue side d4 chid (set_heads (queue_at side d4 chid) word) in
    lldma_reg_write d5 (ch_ctrl0 dir) enable

unfoldable pub start_queue : (ℕ → ℕ) → Dev → ℕ → Dir → Dev
unfolding start_side
start_queue virt_to_phys d chid dir =
    if leb d.available_dma_channel_num chid then d else elim (start_side dir) [
      | none ↦ d
      | some (side, enable) ↦ start_channel virt_to_phys d chid dir side enable
    ]

unfoldable pub set_buf : Dev → Dir → ℕ → ℕ → Dev
unfolding lldma_reg_write
set_buf d dir size addr =
    let d1 = lldma_reg_write d (buf_addr_dn dir) (addr % 2 ^ 32) in
    let d2 = lldma_reg_write d1 (buf_addr_up dir) (addr / 2 ^ 32 % 2 ^ 32) in
    lldma_reg_write d2 (buf_size dir) size

-- FPGA_DRAIN_POLLING_MS / wait_msec
abbrev pub drain_polls : ℕ
drain_polls = 3000 / 100

-- The polling loop: true if a read of CH_CTRL0 gave 0 within the rounds left.
unfoldable pub wait_drain : ℕ → Dev → Dir → Bool × Dev
unfolding lldma_reg_read
wait_drain zero d dir = (false, d)
wait_drain (suc rounds) d dir =
    let (monitor_val, d1) = lldma_reg_read d (ch_ctrl0 dir) in
    let rest = wait_drain rounds d1 dir in if monitor_val == 0 then (true, d1) else rest

unfoldable pub stop_queue : Dev → ℕ → Dir → Ret × Dev
unfolding lldma_reg_write
stop_queue d chid dir =
    let d1 = lldma_reg_write d (ch_sel dir) chid in
    let d2 = lldma_reg_write d1 (ch_ctrl0 dir) 0 in
    let (drained, d3) = wait_drain drain_polls d2 dir in
    let d4 = lldma_reg_write d3 (ch_ctrl0 dir) enable_clear in
    (if drained then ok else err efault, d4)
