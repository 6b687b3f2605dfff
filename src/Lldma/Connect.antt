-- ===== src/Lldma/Connect.antt =====
-- Device-to-device connections, driver/lldma/libxpcie_lldma.c: `xpcie_fpga_dev_connect` and
-- `xpcie_fpga_dev_disconnect`. `none` is an access outside an array, as in the queue functions.
pub mod Lifecycle
use hardware_drivers.Prelude.{
  ℕ, ◌+◌, ◌*◌, ◌%◌, ◌^◌, Bool, true, false, Option, none, some, List, [], if◌then◌else◌, ltb, not,
  ◌||◌, length, bit_or,
}
use hardware_drivers.Device.{
  Dev, Dir, host_to_dev, dev_to_host, nw_to_dev, dev_to_nw, d2d_rx, d2d_tx, d2d_d_rx, d2d_d_tx,
  other_dir, QueueInfo, used, Side, enq, deq, queue_at, set_queue, Ret, ok, err, einval, ebusy,
  max_queue_pair, connector_id_name_max, lldma_reg_write,
}
use hardware_drivers.Lldma.Regs.{
  ch_sel, ch_ctrl0, ch_ctrl1, q_ctrl, q_addr_dn, q_addr_up, enable_ie, enable_oe,
}
use hardware_drivers.Lldma.Channel.{queue_set_addr, queue_set_ctrl, set_buf, stop_queue}
use hardware_drivers.Lldma.Queue.{is_free, with_status, with_connector, put_queue_info}

-- The arguments of `xpcie_fpga_dev_connect`.
pub record Connection : Type 0 where
  pub self_chid : ℕ
  pub peer_chid : ℕ
  pub dir : Dir
  pub peer_addr : ℕ
  pub buf_size : ℕ
  pub buf_addr : ℕ
  pub connector_id : List ℕ

abbrev pub connect_side : Dir → Option Side
connect_side d2d_rx = some enq
connect_side d2d_d_rx = some enq
connect_side d2d_tx = some deq
connect_side d2d_d_tx = some deq
connect_side _ = none

-- A transfer through host memory (D2D-H) has a buffer.
abbrev pub has_buf : Dir → Bool
has_buf d2d_rx = true
has_buf d2d_tx = true
has_buf _ = false

unfoldable pub set_buf_if_d2d_h : Dev → Dir → ℕ → ℕ → Dev
set_buf_if_d2d_h d dir size addr = if has_buf dir then set_buf d dir size addr else d

-- What `xpcie_fpga_dev_connect` programs once the channel is taken.
unfoldable pub program_connection : (ℕ → ℕ) → Dev → Connection → Dev
unfolding lldma_reg_write
program_connection virt_to_phys d c =
    let d1 = queue_set_ctrl d (c.self_chid % 2 ^ 16) c.dir (c.peer_chid % 2 ^ 8) in
    let d2 = queue_set_addr virt_to_phys d1 (c.self_chid % 2 ^ 16) c.dir c.peer_addr in
    let d3 = set_buf_if_d2d_h d2 c.dir c.buf_size c.buf_addr in
    let d4 = lldma_reg_write d3 (ch_sel c.dir) c.self_chid in
    lldma_reg_write d4 (ch_ctrl0 c.dir) (bit_or enable_ie enable_oe)

unfoldable pub connect_at : (ℕ → ℕ) → Dev → Connection → Side → Ret × Dev
unfolding queue_at set_queue
connect_at virt_to_phys d c side =
    let q = queue_at side d c.self_chid in
    let d1 = set_queue side d c.self_chid (with_status q used) in
    let d2 = program_connection virt_to_phys d1 c in
    let d3 =
      set_queue side d2 c.self_chid
        (with_connector (queue_at side d2 c.self_chid) c.connector_id) in
    if is_free q.status then (ok, d3) else (err ebusy, d)

unfoldable pub dev_connect : (ℕ → ℕ) → Dev → Connection → Option (Ret × Dev)
unfolding queue_at
dev_connect virt_to_phys d c = elim (connect_side c.dir) [
  | none ↦ some (err einval, d)
  | some side ↦
      if ltb c.self_chid max_queue_pair
      then if not (is_free (queue_at side d c.self_chid).status)
          || ltb (length c.connector_id) connector_id_name_max
        then some (connect_at virt_to_phys d c side)
        else none
      else none
]

-- The initial values that `xpcie_fpga_dev_disconnect` writes back.
unfoldable pub reset_channel : Dev → Dir → Dev
unfolding lldma_reg_write
reset_channel d dir =
    let d1 = lldma_reg_write d (q_ctrl dir) (0x10 * 2 ^ 8) in
    let d2 = lldma_reg_write d1 (ch_ctrl1 dir) 0 in
    let d3 = lldma_reg_write d2 (q_addr_up dir) 0 in
    let d4 = lldma_reg_write d3 (q_addr_dn dir) 0 in set_buf_if_d2d_h d4 dir 0 0

-- The result of `xpcie_fpga_put_queue_info` is dropped.
unfoldable pub disconnect_stopped : Ret × Dev → ℕ → Dir → Option (Ret × Dev)
disconnect_stopped (err e, d) self_chid dir = some (err e, d)
disconnect_stopped (ok, d) self_chid dir =
    elim (put_queue_info (reset_channel d dir) (self_chid % 2 ^ 16) dir) [
      | none ↦ none
      | some (_, d') ↦ some (ok, d')
    ]

unfoldable pub dev_disconnect : Dev → ℕ → Dir → Option (Ret × Dev)
unfolding lldma_reg_write
dev_disconnect d self_chid dir =
    let d1 = lldma_reg_write d (ch_sel dir) self_chid in
    disconnect_stopped (stop_queue d1 (self_chid % 2 ^ 16) dir) self_chid dir
