-- ===== src/Device.antt =====
-- The state that the modules of the driver share: `fpga_dev_info_t` of driver/libxpcie.h, and the
-- error numbers, directions, descriptors and command queues of driver/xpcie_device.h.
use hardware_drivers.Prelude.{ℕ, ◌+◌, ◌*◌, List, update}
use hardware_drivers.Prelude.Int.{ℤ}
use hardware_drivers.Bus.{Bus, reg_read32, reg_write32}

-- The error numbers that the driver returns, negated.
pub data Errno : Type 0 where
  enomem efault ebusy enodev einval : Errno
  update_timeout no_chain_found refcount_writing refcount_using : Errno

-- A C function's `int` result: 0 or the negation of an error number.
pub data Ret : Type 0 where
  ok : Ret
  err : Errno → Ret

-- `dma_dir_t`; `other_dir` is DMA_DIR_MAX and every number that has no name.
pub data Dir : Type 0 where
  host_to_dev dev_to_host nw_to_dev dev_to_nw : Dir
  d2d_rx d2d_tx d2d_d_rx d2d_d_tx : Dir
  other_dir : Dir

-- `fpga_desc_t`
pub record Desc : Type 0 where
  pub task_id : ℕ
  pub op : ℕ
  pub status : ℕ
  pub len : ℕ
  pub addr : ℕ

abbrev pub zero_desc : Desc
zero_desc = record { task_id = 0; op = 0; status = 0; len = 0; addr = 0 }

-- `fpga_queue_t`, at the address `base` of kernel memory.
pub record Que : Type 0 where
  pub base : ℕ
  pub size : ℕ
  pub readhead : ℕ
  pub writehead : ℕ
  pub ring : ℕ → Desc

-- FPGA_Q_STAT_FREE and FPGA_Q_STAT_USED
pub data QueueStatus : Type 0 where
  free used : QueueStatus

-- `fpga_queue_enqdeq_t`; a connector id is the bytes before the terminating NUL.
pub record QueueInfo : Type 0 where
  pub status : QueueStatus
  pub que : Que
  pub qp_mem_addr : ℕ
  pub qp_mem_size : ℕ
  pub connector_id : List ℕ

-- `fpga_module_info_t`
pub record ModuleInfo : Type 0 where
  pub base : ℕ
  pub len : ℕ
  pub num : ℕ
  pub refcount : ℕ → ℤ

-- `extifid_cid_t`
pub record ExtifCid : Type 0 where
  pub extif_id : ℤ
  pub cid : ℤ

-- The fields of `fpga_dev_info_t` that the modelled functions use.
pub record Dev : Type 0 where
  pub bus : Bus
  pub global : ModuleInfo
  pub chain : ModuleInfo
  pub direct : ModuleInfo
  pub lldma : ModuleInfo
  pub available_dma_channel_num : ℕ
  pub enqueues : ℕ → QueueInfo
  pub dequeues : ℕ → QueueInfo
  pub fch_dev_table : ℕ → ℕ → ℕ → ExtifCid

abbrev pub kernel_lane_max : ℕ
kernel_lane_max = 4

abbrev pub max_queue_pair : ℕ
max_queue_pair = 32

abbrev pub connector_id_name_max : ℕ
connector_id_name_max = 128

-- `__reg_read` and `__reg_write` for the LLDMA module (lane 0), and for a lane of the chain module
-- and of the direct module.
unfoldable pub lldma_reg_read : Dev → ℕ → ℕ × Dev
unfolding reg_read32
lldma_reg_read d offset =
    let (v, b) = reg_read32 d.bus (d.lldma.base + d.lldma.len * 0 + offset) in
    (v, record d { bus = b })

unfoldable pub lldma_reg_write : Dev → ℕ → ℕ → Dev
unfolding reg_write32
lldma_reg_write d offset value = record d {
  bus = reg_write32 d.bus (d.lldma.base + d.lldma.len * 0 + offset) value;
}

unfoldable pub chain_reg_read : Dev → ℕ → ℕ → ℕ × Dev
unfolding reg_read32
chain_reg_read d offset lane =
    let (v, b) = reg_read32 d.bus (d.chain.base + d.chain.len * lane + offset) in
    (v, record d { bus = b })

unfoldable pub chain_reg_write : Dev → ℕ → ℕ → ℕ → Dev
unfolding reg_write32
chain_reg_write d offset lane value = record d {
  bus = reg_write32 d.bus (d.chain.base + d.chain.len * lane + offset) value;
}

unfoldable pub direct_reg_read : Dev → ℕ → ℕ → ℕ × Dev
unfolding reg_read32
direct_reg_read d offset lane =
    let (v, b) = reg_read32 d.bus (d.direct.base + d.direct.len * lane + offset) in
    (v, record d { bus = b })

unfoldable pub direct_reg_write : Dev → ℕ → ℕ → ℕ → Dev
unfolding reg_write32
direct_reg_write d offset lane value = record d {
  bus = reg_write32 d.bus (d.direct.base + d.direct.len * lane + offset) value;
}

-- The two arrays of queues.
pub data Side : Type 0 where
  enq deq : Side

unfoldable pub queue_at : Side → Dev → ℕ → QueueInfo
queue_at enq d chid = d.enqueues chid
queue_at deq d chid = d.dequeues chid

unfoldable pub set_queue : Side → Dev → ℕ → QueueInfo → Dev
set_queue enq d chid q = record d { enqueues = update d.enqueues chid q }
set_queue deq d chid q = record d { dequeues = update d.dequeues chid q }
