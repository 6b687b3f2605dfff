-- ===== src/Lldma/Channel/Program.antt =====
-- What starting a queue programs into the channel of the FPGA.
use hardware_drivers.Prelude.{
  ℕ, ◌+◌, ◌*◌, ◌/◌, ◌%◌, ◌^◌, ◌<◌, ◌≡◌, Option, some, List, ◌∷◌, drop, arith,
}
use hardware_drivers.Bus.{Access, store, u32}
use hardware_drivers.Bus.Trace.{last_write}
use hardware_drivers.Device.{
  Dev, Dir, host_to_dev, dev_to_host, Side, enq, deq, queue_at, lldma_reg_read, lldma_reg_write,
}
use hardware_drivers.Lldma.Regs.{ch_sel, ch_ctrl0, ch_ctrl1, q_ctrl, q_addr_dn, q_addr_up}
use hardware_drivers.Lldma.Channel.{
  ring_addr, queue_set_addr, queue_set_ctrl, start_channel, start_side, start_queue,
}

-- The module stands at its offset of driver/lldma/xpcie_regs_lldma.h.
abbrev pub IsMapped : Dev → Type 0
IsMapped d = d.lldma.base ≡ 0x10000

-- The value that a register of the module was last given.
abbrev pub reg_value : Dev → ℕ → Option ℕ
reg_value d offset = last_write (0x10000 + offset) d.bus.log

-- What `start_queue` leaves behind for a host queue at `phys` with `size` descriptors, where
-- `before` is the log from which it started: the gates are opened by the very last access.
pub record Programs (d : Dev) (dir : Dir) (chid phys size : ℕ) (before : List Access) : Type 0 where
  pub selected : reg_value d (ch_sel dir) ≡ some chid
  pub address_up : reg_value d (q_addr_up dir) ≡ some (phys / 2 ^ 32)
  pub address_dn : reg_value d (q_addr_dn dir) ≡ some (phys % 2 ^ 32)
  pub count : reg_value d (q_ctrl dir) ≡ some (size * 2 ^ 8)
  pub mode : reg_value d (ch_ctrl1 dir) ≡ some 0
  pub opened_last : d.bus.log ≡ store (0x10000 + ch_ctrl0 dir) 3 ∷ drop 1 d.bus.log
  pub shut_until :
      last_write (0x10000 + ch_ctrl0 dir) (drop 1 d.bus.log)
      ≡ last_write (0x10000 + ch_ctrl0 dir) before

-- Starting a host queue on an available channel of a mapped module selects the channel, gives it
-- the two halves of the ring's physical address, the number of descriptors and the host mode, and
-- only then opens both gates, provided that the channel fits 16 bits, the address 64 and the size
-- 16.
pub start_queue-Programs :
    (v : ℕ → ℕ) (d : Dev) (chid : ℕ) (dir : Dir) (side : Side)
    → IsMapped d
    → start_side dir ≡ some (side, 3)
    → chid < d.available_dma_channel_num
    → chid < 2 ^ 16
    → v (ring_addr (queue_at side d chid).que) < 2 ^ 64
    → (queue_at side d chid).que.size < 2 ^ 16
    → Programs
        (start_queue v d chid dir)
        dir
        chid
        (v (ring_addr (queue_at side d chid).que))
        (queue_at side d chid).que.size
        d.bus.log
unfolding start_queue start_channel queue_set_addr queue_set_ctrl last_write
start_queue-Programs v d chid host_to_dev enq m e h c p s = ground arith
start_queue-Programs v d chid host_to_dev deq m e h c p s = ground arith
start_queue-Programs v d chid dev_to_host enq m e h c p s = ground arith
start_queue-Programs v d chid dev_to_host deq m e h c p s = ground arith
start_queue-Programs v d chid _ side m e h c p s = ground arith

-- The pointer that the FPGA shows in the upper byte of a direction's Q_CTRL is always below `size`.
abbrev pub PointsBelow : Dev → Dir → ℕ → Type 0
PointsBelow d dir size =
    (log : List Access)
    → d.bus.answer log (u32 (d.lldma.base + d.lldma.len * 0 + q_ctrl dir)) % 2 ^ 32 / 2 ^ 24 < size

queue_set_addr-PointsBelow :
    (v : ℕ → ℕ) (d : Dev) (chid : ℕ) (dir to : Dir) (addr size : ℕ)
    → PointsBelow d to size
    → PointsBelow (queue_set_addr v d chid dir addr) to size
unfolding queue_set_addr
queue_set_addr-PointsBelow v d chid dir to addr size h log = ground (arith, h log)

queue_set_ctrl-PointsBelow :
    (d : Dev) (chid : ℕ) (dir to : Dir) (cid size : ℕ)
    → PointsBelow d to size
    → PointsBelow (queue_set_ctrl d chid dir cid) to size
unfolding queue_set_ctrl
queue_set_ctrl-PointsBelow d chid dir to cid size h log = ground (arith, h log)

-- The two writes, the read of the pointer and the last write, from the programmed channel on.
read_pointer :
    (e : Dev) (chid : ℕ) (dir : Dir) (size : ℕ)
    → PointsBelow e dir size
    → (lldma_reg_read (lldma_reg_write e (ch_sel dir) chid) (q_ctrl dir)).0 / 2 ^ 24 % 256 < size
unfolding lldma_reg_read lldma_reg_write
read_pointer e chid dir size h =
    omega
      (arith, h (store (u32 (e.lldma.base + e.lldma.len * 0 + ch_sel dir)) (u32 chid) ∷ e.bus.log))

-- Both heads of the queue take over the pointer of the FPGA.
start_channel_pointer :
    (v : ℕ → ℕ) (d : Dev) (chid : ℕ) (dir : Dir) (side : Side) (enable size : ℕ)
    → PointsBelow d dir size
    → let q = (queue_at side (start_channel v d chid dir side enable) chid).que in
      (q.readhead ≡ q.writehead) × (q.readhead < size)
unfolding start_channel
start_channel_pointer v d chid dir enq enable size h = ground (
  arith,
  read_pointer (queue_set_ctrl (queue_set_addr v d chid dir 0) chid dir 255) chid dir size (
      queue_set_ctrl-PointsBelow (queue_set_addr v d chid dir 0) chid dir dir 255 size
        (queue_set_addr-PointsBelow v d chid dir dir 0 size h)),
)
start_channel_pointer v d chid dir deq enable size h = ground (
  arith,
  read_pointer (queue_set_ctrl (queue_set_addr v d chid dir 0) chid dir 255) chid dir size (
      queue_set_ctrl-PointsBelow (queue_set_addr v d chid dir 0) chid dir dir 255 size
        (queue_set_addr-PointsBelow v d chid dir dir 0 size h)),
)

pub start_queue_pointer :
    (v : ℕ → ℕ) (d : Dev) (chid : ℕ) (dir : Dir) (side : Side) (enable size : ℕ)
    → start_side dir ≡ some (side, enable)
    → chid < d.available_dma_channel_num
    → PointsBelow d dir size
    → let q = (queue_at side (start_queue v d chid dir) chid).que in
      (q.readhead ≡ q.writehead) × (q.readhead < size)
unfolding start_queue
start_queue_pointer v d chid dir side enable size e h p =
    ground (arith, start_channel_pointer v d chid dir side enable size p)
