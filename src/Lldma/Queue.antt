-- ===== src/Lldma/Queue.antt =====
-- Command queues, driver/lldma/libxpcie_lldma.c: `xpcie_fpga_get_queue`, `xpcie_fpga_put_queue`,
-- `xpcie_fpga_put_queue_info`, `xpcie_fpga_scan_queue` and `xpcie_fpga_ref_queue`.
-- `none` is an access outside an array: the arrays of queues have 32 entries and a connector id
-- 128 bytes with its NUL. A mutex makes the test and the setting of `status` one step.
pub mod Exclusive
pub mod Release
pub mod Lookup
use hardware_drivers.Prelude.{
  not, ◌||◌, ℕ, zero, suc, ◌+◌, Bool, true, false, Option, none, some, List, [], if◌then◌else◌, ltb,
  ◌==◌, length, bytes_eq,
}
use hardware_drivers.Device.{
  Dev, Dir, host_to_dev, dev_to_host, nw_to_dev, dev_to_nw, d2d_rx, d2d_tx, d2d_d_rx, d2d_d_tx,
  other_dir, Que, QueueInfo, QueueStatus, free, used, Desc, zero_desc, Side, enq, deq, queue_at,
  set_queue, Ret, ok, err, Errno, einval, ebusy, max_queue_pair, connector_id_name_max,
}
use hardware_drivers.Lldma.Channel.{start_queue, stop_queue}

-- `fpga_ioctl_queue_t`
pub record IoctlQueue : Type 0 where
  pub dir : Dir
  pub chid : ℕ
  pub map_size : ℕ
  pub connector_id : List ℕ

abbrev pub is_free : QueueStatus → Bool
is_free free = true
is_free used = false

-- The switch of `xpcie_fpga_get_queue`.
abbrev pub get_side : Dir → Option Side
get_side host_to_dev = some enq
get_side nw_to_dev = some enq
get_side dev_to_host = some deq
get_side dev_to_nw = some deq
get_side _ = none

abbrev pub with_status : QueueInfo → QueueStatus → QueueInfo
with_status q s = record q { status = s }

abbrev pub with_connector : QueueInfo → List ℕ → QueueInfo
with_connector q id = record q { connector_id = id }

-- `memset(command_queue->ring, 0, sizeof(fpga_desc_t) * command_queue->size)`
abbrev pub clear_ring : QueueInfo → QueueInfo
clear_ring q = record q {
  que = record (q.que) { ring = λ i. if ltb i q.que.size then zero_desc else q.que.ring i };
}

-- `xpcie_fpga_get_queue` behind its switch.
unfoldable pub get_queue_at : (ℕ → ℕ) → Dev → IoctlQueue → Side → Ret × Dev × IoctlQueue
unfolding queue_at set_queue
get_queue_at virt_to_phys d io side =
    let q = queue_at side d io.chid in
    let d1 = set_queue side d io.chid (clear_ring (with_status q used)) in
    let d2 = start_queue virt_to_phys d1 io.chid io.dir in
    let d3 =
      set_queue side d2 io.chid (with_connector (queue_at side d2 io.chid) io.connector_id) in
    if is_free q.status
    then (ok, d3, record io { map_size = q.qp_mem_size })
    else (err ebusy, d, io)

unfoldable pub get_queue : (ℕ → ℕ) → Dev → IoctlQueue → Option (Ret × Dev × IoctlQueue)
unfolding queue_at
get_queue virt_to_phys d io = elim (get_side io.dir) [
  | none ↦ some (err einval, d, io)
  | some side ↦
      if ltb io.chid max_queue_pair
      then if not (is_free (queue_at side d io.chid).status)
          || ltb (length io.connector_id) connector_id_name_max
        then some (get_queue_at virt_to_phys d io side)
        else none
      else none
]

-- The switch of `xpcie_fpga_put_queue_info`.
abbrev pub put_side : Dir → Option Side
put_side host_to_dev = some enq
put_side nw_to_dev = some enq
put_side d2d_rx = some enq
put_side d2d_d_rx = some enq
put_side dev_to_host = some deq
put_side dev_to_nw = some deq
put_side d2d_tx = some deq
put_side d2d_d_tx = some deq
put_side other_dir = none

abbrev pub released : QueueInfo → QueueInfo
released q = with_status (with_connector q []) free

unfoldable pub put_queue_info : Dev → ℕ → Dir → Option (Ret × Dev)
unfolding queue_at set_queue
put_queue_info d chid dir = elim (put_side dir) [
  | none ↦ some (err einval, d)
  | some side ↦
      if ltb chid max_queue_pair
      then some (ok, set_queue side d chid (released (queue_at side d chid)))
      else none
]

-- What `xpcie_fpga_put_queue` makes of the result of `xpcie_fpga_put_queue_info`.
abbrev pub busy_if_failed : Ret × Dev → Ret × Dev
busy_if_failed (ok, d) = (ok, d)
busy_if_failed (err e, d) = (err ebusy, d)

unfoldable pub put_stopped : Ret × Dev → ℕ → Dir → Option (Ret × Dev)
put_stopped (err e, d) chid dir = some (err e, d)
put_stopped (ok, d) chid dir = elim (put_queue_info d chid dir) [
  | none ↦ none
  | some r ↦ some (busy_if_failed r)
]

unfoldable pub put_queue : Dev → IoctlQueue → Option (Ret × Dev)
put_queue d io = put_stopped (stop_queue d io.chid io.dir) io.chid io.dir

-- `xpcie_fpga_scan_queue`
pub data Scan : Type 0 where
  found : ℕ → Scan
  failed : Errno → Scan

abbrev pub scan_side : Dir → Option Side
scan_side host_to_dev = some enq
scan_side dev_to_host = some deq
scan_side _ = none

-- The loop, with the number of channels left to try and the channel to try next.
unfoldable pub scan_from : Dev → Side → List ℕ → ℕ → ℕ → Scan
unfolding queue_at
scan_from d side id zero chid = failed ebusy
scan_from d side id (suc left) chid =
    let rest = scan_from d side id left (chid + 1) in
    if bytes_eq (queue_at side d chid).connector_id id then found chid else rest

-- A direction with no case ends the loop at its first round.
unfoldable pub scan_queue : Dev → List ℕ → Dir → Scan
scan_queue d id dir = elim (scan_side dir) [
  | none ↦ if d.available_dma_channel_num == 0 then failed ebusy else failed einval
  | some side ↦ scan_from d side id d.available_dma_channel_num 0
]

-- What `xpcie_fpga_ref_queue` stores for the caller.
abbrev pub bound_to : Dev → IoctlQueue → Side → Dir → ℕ → IoctlQueue
bound_to d io side dir chid = record io {
  dir = dir;
  map_size = (queue_at side d chid).qp_mem_size;
  chid = chid;
}

unfoldable pub ref_tx : Dev → IoctlQueue → Scan → Ret × IoctlQueue
unfolding queue_at
ref_tx d io (found chid) = (ok, bound_to d io deq dev_to_host chid)
ref_tx d io (failed e) = (err e, io)

unfoldable pub ref_rx : Dev → IoctlQueue → Scan → Ret × IoctlQueue
unfolding queue_at
ref_rx d io (found chid) = (ok, bound_to d io enq host_to_dev chid)
ref_rx d io (failed e) = ref_tx d io (scan_queue d io.connector_id dev_to_host)

unfoldable pub ref_queue : Dev → IoctlQueue → Ret × IoctlQueue
ref_queue d io = ref_rx d io (scan_queue d io.connector_id host_to_dev)
