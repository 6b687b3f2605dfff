-- ===== src/Files.antt =====
-- An open file of the driver, driver/xpcie_device_fops.c and
-- driver/lldma/xpcie_device_fops_lldma.c: what is bound to its descriptor, and the calls that
-- change it. Whether the copies from and to the caller's memory succeed is an argument. `none` is
-- an access outside an array.
pub mod Close
pub mod Slips
pub mod Returns
pub mod Owner
pub mod Access
use hardware_drivers.Prelude.{
  ℕ, ◌+◌, ◌%◌, ◌/◌, ◌^◌, Bool, true, false, not, ◌||◌, ◌⊎◌, inl, inr, ltb, Option, none, some, ◌==◌,
  if◌then◌else◌, List,
}
use hardware_drivers.Bus.{reg_read32, reg_write32}
use hardware_drivers.Device.{
  Dev, Dir, host_to_dev, dev_to_host, nw_to_dev, dev_to_nw, d2d_rx, d2d_tx, d2d_d_rx, d2d_d_tx,
  other_dir, Ret, ok, err, Errno, efault, ebusy, enodev, einval, Side, enq, deq, queue_at,
}
use hardware_drivers.Lldma.Channel.{stop_queue}
use hardware_drivers.Lldma.Queue.{IoctlQueue, get_queue, put_queue, put_queue_info, ref_queue}
use hardware_drivers.Lldma.Connect.{Connection, dev_connect, dev_disconnect}

-- `struct xpcie_file_private`; `none` is -1.
pub record Private : Type 0 where
  pub chid : Option ℕ
  pub que_kind : Option Dir
  pub is_get_queue : Bool
  pub is_avail_rw : Bool

-- `xpcie_cdev_open`; `no_lock` is whether XPCIE_REGISTER_NO_LOCK is defined.
unfoldable pub open_file : Bool → Private
open_file no_lock = record {
  chid = none;
  que_kind = none;
  is_get_queue = false;
  is_avail_rw = no_lock;
}

abbrev pub bound : Private → ℕ → Dir → Private
bound f chid dir = record f { chid = some chid; que_kind = some dir }

abbrev pub owning : Private → ℕ → Dir → Private
owning f chid dir = record f { chid = some chid; que_kind = some dir; is_get_queue = true }

abbrev pub unbound : Private → Private
unbound f = record f { chid = none; que_kind = none; is_get_queue = false }

-- The numbers of `dma_dir_t`; `other_dir` is DMA_DIR_MAX here.
abbrev pub dir_number : Dir → ℕ
dir_number host_to_dev = 0
dir_number dev_to_host = 1
dir_number nw_to_dev = 2
dir_number dev_to_nw = 3
dir_number other_dir = 4
dir_number d2d_rx = 5
dir_number d2d_tx = 6
dir_number d2d_d_rx = 7
dir_number d2d_d_tx = 8

abbrev pub is_kind : Option Dir → Dir → Bool
is_kind none dir = false
is_kind (some kind) dir = dir_number kind == dir_number dir

-- The rest of XPCIE_DEV_LLDMA_ALLOC_QUEUE after `xpcie_fpga_get_queue`.
unfoldable pub alloc_got :
    Bool → Private → Ret × Dev × IoctlQueue → Option (Ret × Dev × Private × IoctlQueue)
alloc_got to_user f (err e, d, io) = some (err e, d, f, io)
alloc_got true f (ok, d, io) = some (ok, d, owning f io.chid io.dir, io)
alloc_got false f (ok, d, io) = elim (put_queue d io) [
  | none ↦ none
  | some (r, d') ↦ some (err efault, d', f, io)
]

unfoldable pub alloc_queue :
    (ℕ → ℕ) → Bool → Bool → Dev → Private → IoctlQueue → Option (Ret × Dev × Private × IoctlQueue)
unfolding alloc_got
alloc_queue virt_to_phys false to_user d f io = some (err efault, d, f, io)
alloc_queue virt_to_phys true to_user d f io = elim (get_queue virt_to_phys d io) [
  | none ↦ none
  | some got ↦ alloc_got to_user f got
]

-- XPCIE_DEV_LLDMA_BIND_QUEUE
unfoldable pub bind_found : Bool → Private → Ret × IoctlQueue → Ret × Private × IoctlQueue
bind_found to_user f (err e, io) = (err ebusy, f, io)
bind_found false f (ok, io) = (err efault, f, io)
bind_found true f (ok, io) = (ok, bound f io.chid io.dir, io)

unfoldable pub bind_queue : Bool → Bool → Dev → Private → IoctlQueue → Ret × Private × IoctlQueue
unfolding bind_found
bind_queue false to_user d f io = (err efault, f, io)
bind_queue true to_user d f io = bind_found to_user f (ref_queue d io)

-- XPCIE_DEV_LLDMA_FREE_QUEUE: the channel is that of the request.
unfoldable pub free_put : Private → Option (Ret × Dev) → Option (Ret × Dev × Private)
free_put f none = none
free_put f (some (err e, d)) = some (err ebusy, d, f)
free_put f (some (ok, d)) = some (ok, d, unbound f)

unfoldable pub free_queue : Bool → Dev → Private → IoctlQueue → Option (Ret × Dev × Private)
unfolding free_put
free_queue false d f io = some (err efault, d, f)
free_queue true d f io =
    if is_kind f.que_kind io.dir then free_put f (put_queue d io) else some (err ebusy, d, f)

-- `fpga_ioctl_connect_t`
pub record IoctlConnect : Type 0 where
  pub peer_minor : ℕ
  pub peer_chid : ℕ
  pub self_chid : ℕ
  pub self_dir : Dir
  pub buf_size : ℕ
  pub buf_addr : ℕ
  pub connector_id : List ℕ

-- The direction inside the driver; it is not set for any other direction than two.
abbrev pub d2d_dir : Dir → ℕ → Dir → Dir
d2d_dir garbage buf_addr host_to_dev = if buf_addr == 0 then d2d_d_rx else d2d_rx
d2d_dir garbage buf_addr dev_to_host = if buf_addr == 0 then d2d_d_tx else d2d_tx
d2d_dir garbage buf_addr other = garbage

unfoldable pub connect_done : Private → ℕ → Dir → Option (Ret × Dev) → Option (Ret × Dev × Private)
connect_done f chid dir none = none
connect_done f chid dir (some (err e, d)) = some (err e, d, f)
connect_done f chid dir (some (ok, d)) = some (ok, d, owning f chid dir)

-- XPCIE_DEV_LLDMA_ALLOC_CONNECTION; `base_addr` is `xpcie_fpga_get_baseaddr` and `dev_id` the
-- number of this device.
unfoldable pub alloc_connection :
    (ℕ → ℕ) → (ℕ → ℕ) → Dir → ℕ → Bool → Dev → Private → IoctlConnect → Option (Ret × Dev × Private)
unfolding connect_done
alloc_connection virt_to_phys base_addr garbage dev_id false d f c = some (err efault, d, f)
alloc_connection virt_to_phys base_addr garbage dev_id true d f c =
    let dir = d2d_dir garbage c.buf_addr c.self_dir in
    if dev_id == c.peer_minor
    then some (err einval, d, f)
    else if base_addr c.peer_minor == 0
    then some (err einval, d, f)
    else connect_done f c.self_chid dir (
        dev_connect virt_to_phys d (record {
          self_chid = c.self_chid;
          peer_chid = c.peer_chid;
          dir = dir;
          peer_addr = base_addr c.peer_minor;
          buf_size = c.buf_size;
          buf_addr = c.buf_addr;
          connector_id = c.connector_id;
        }))

-- XPCIE_DEV_LLDMA_FREE_CONNECTION
unfoldable pub disconnect_done : Private → Option (Ret × Dev) → Option (Ret × Dev × Private)
disconnect_done f none = none
disconnect_done f (some (err e, d)) = some (err e, d, f)
disconnect_done f (some (ok, d)) = some (ok, d, unbound f)

unfoldable pub disconnect_bound :
    Dev → Private → Option ℕ → Option Dir → Option (Ret × Dev × Private)
unfolding disconnect_done
disconnect_bound d f (some chid) (some dir) = disconnect_done f (dev_disconnect d chid dir)
disconnect_bound d f chid dir = none

unfoldable pub free_connection : Dev → Private → Option (Ret × Dev × Private)
unfolding disconnect_bound
free_connection d f =
    if f.is_get_queue then disconnect_bound d f f.chid f.que_kind else some (err einval, d, f)

-- `xpcie_cdev_release`: what the two calls return is not looked at.
unfoldable pub release_bound : Dev → Option ℕ → Option Dir → Option Dev
release_bound d (some chid) (some dir) = elim (put_queue_info (stop_queue d chid dir).1 chid dir) [
  | none ↦ none
  | some (r, d') ↦ some d'
]
release_bound d chid dir = none

unfoldable pub release : Dev → Private → Option Dev
unfolding release_bound
release d f = if f.is_get_queue then release_bound d f.chid f.que_kind else some d
