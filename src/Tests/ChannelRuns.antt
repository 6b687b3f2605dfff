-- ===== src/Tests/ChannelRuns.antt =====
-- The theorems on the channels of the LLDMA module at concrete devices.
use hardware_drivers.Prelude.{ℕ, ◌+◌, ◌*◌, ◌%◌, ◌≤◌, ◌≡◌, refl, arith, Bool, []}
use hardware_drivers.Device.{Dev, host_to_dev, enq, queue_at, ok, free, zero_desc, lldma_reg_write}
use hardware_drivers.Lldma.Regs.{ch_ctrl0}
use hardware_drivers.Lldma.Channel.{start_side, start_queue, stop_queue, drain_polls}
use hardware_drivers.Lldma.Channel.Frame.{drain_start}
use hardware_drivers.Lldma.Channel.Program.{Programs, start_queue-Programs}
use hardware_drivers.Lldma.Channel.Stop.{Drain, drain_result, stop_queue_drains}
use hardware_drivers.Lldma.Alloc.{queue_que_init, alloc_bytes}
use hardware_drivers.Lldma.Alloc.Bounds.{queue_que_init_fits}
use hardware_drivers.Tests.Samples.{phys, idle, board, queue_of}

start_queue-Programs_example :
    Programs (start_queue phys idle 1 host_to_dev) host_to_dev 1 0x200040 512 []
unfolding queue_at start_side
start_queue-Programs_example =
    start_queue-Programs phys idle 1 host_to_dev enq refl refl (omega arith) (omega arith)
      (omega arith) (omega arith)

stop_queue_drains_example :
    (r : Bool × Dev) × Drain drain_polls (drain_start idle 1 host_to_dev) host_to_dev r
    × (stop_queue idle 1 host_to_dev
        ≡ (drain_result r.0, lldma_reg_write r.1 (ch_ctrl0 host_to_dev) 4))
stop_queue_drains_example = stop_queue_drains idle 1 host_to_dev

-- Channels 0 and 2 are available.
abbrev two_channels : Dev
two_channels = board (queue_of free []) 5

queue_que_init_fits_example :
    let (r, q) = queue_que_init (queue_of free []) 512 0x200000 in
    (r ≡ ok)
    × (q.que.base ≡ 0x200000)
    × (64 + 64 * q.que.size ≤ q.qp_mem_size)
    × (q.que.base + q.qp_mem_size ≤ 0x200000 + alloc_bytes 512)
    × (q.qp_mem_size % 64 ≡ 0)
    × (q.que.readhead ≡ q.que.writehead)
    × ((k : ℕ) → q.que.ring k ≡ zero_desc)
queue_que_init_fits_example =
    queue_que_init_fits (queue_of free []) 512 0x200000 (λ e. omega arith) refl
