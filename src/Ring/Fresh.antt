-- ===== src/Ring/Fresh.antt =====
-- A command queue that `xpcie_fpga_get_queue` hands out is an empty queue for
-- lib/libfpga/src/libdma.c.
use hardware_drivers.Prelude.{ℕ, ◌^◌, ◌<◌, ◌≡◌, sym, ◌∙◌, ap, subst, arith, some, [], length}
use hardware_drivers.Device.{
  Dev, Dir, host_to_dev, dev_to_host, nw_to_dev, dev_to_nw, d2d_rx, d2d_tx, d2d_d_rx, d2d_d_tx,
  other_dir, Side, enq, deq, queue_at, set_queue, free, used, ok, max_queue_pair,
  connector_id_name_max,
}
use hardware_drivers.Lldma.Channel.{start_side}
use hardware_drivers.Lldma.Channel.Program.{PointsBelow, start_queue_pointer}
use hardware_drivers.Lldma.Queue.{
  IoctlQueue, get_side, get_queue, get_queue_at, clear_ring, with_status,
}
use hardware_drivers.Lldma.Queue.Exclusive.{get_queue-Takes, get_queue_lem}
use hardware_drivers.Ring.Slots.{place_lt, place_zero}
use hardware_drivers.Ring.Fifo.{Holds}

start_side-get_side :
    (dir : Dir) (side : Side)
    → get_side dir ≡ some side
    → (enable : ℕ) × (start_side dir ≡ some (side, enable))
unfolding start_side
start_side-get_side host_to_dev side e = (_, ap (λ s. some (s, 3)) (ground arith))
start_side-get_side nw_to_dev side e = (_, ap (λ s. some (s, 2)) (ground arith))
start_side-get_side dev_to_host side e = (_, ap (λ s. some (s, 3)) (ground arith))
start_side-get_side dev_to_nw side e = (_, ap (λ s. some (s, 1)) (ground arith))
start_side-get_side d2d_rx side e = absurd (ground arith)
start_side-get_side d2d_tx side e = absurd (ground arith)
start_side-get_side d2d_d_rx side e = absurd (ground arith)
start_side-get_side d2d_d_tx side e = absurd (ground arith)
start_side-get_side other_dir side e = absurd (ground arith)

get_queue_at_pointer :
    (v : ℕ → ℕ) (d : Dev) (io : IoctlQueue) (side : Side) (size : ℕ)
    → get_side io.dir ≡ some side
    → (queue_at side d io.chid).status ≡ free
    → io.chid < d.available_dma_channel_num
    → PointsBelow d io.dir size
    → let q = (queue_at side (get_queue_at v d io side).1 io.chid).que in
      (q.readhead ≡ q.writehead) × (q.readhead < size)
unfolding get_queue_at
get_queue_at_pointer v d io enq size e f h p =
    let (enable, es) = start_side-get_side io.dir enq e in
    ground (
      arith,
      start_queue_pointer v
          (set_queue enq d io.chid (clear_ring (with_status (queue_at enq d io.chid) used))) io.chid
          io.dir enq enable size es h p,
    )
get_queue_at_pointer v d io deq size e f h p =
    let (enable, es) = start_side-get_side io.dir deq e in
    ground (
      arith,
      start_queue_pointer v
          (set_queue deq d io.chid (clear_ring (with_status (queue_at deq d io.chid) used))) io.chid
          io.dir deq enable size es h p,
    )

got_dev :
    (v : ℕ → ℕ) (d : Dev) (io : IoctlQueue) (side : Side)
    → get_side io.dir ≡ some side
    → io.chid < max_queue_pair
    → length io.connector_id < connector_id_name_max
    → {d' : Dev} {io' : IoctlQueue} → get_queue v d io ≡ some (ok, d', io')
    → (get_queue_at v d io side).1 ≡ d'
got_dev v d io side e near short p = ground (arith, get_queue_lem v d io side e near short)

-- A queue that `xpcie_fpga_get_queue` hands out, of a channel that is counted as available, is an
-- empty first-in first-out queue, if the pointer that the FPGA shows in Q_CTRL of the direction is
-- always that of one of the queue's descriptors, of which there are fewer than 2 ^ 16.
pub get_queue-Holds :
    (v : ℕ → ℕ) (d : Dev) (io : IoctlQueue) (side : Side)
    → get_side io.dir ≡ some side
    → io.chid < max_queue_pair
    → length io.connector_id < connector_id_name_max
    → (queue_at side d io.chid).status ≡ free
    → io.chid < d.available_dma_channel_num
    → PointsBelow d io.dir (queue_at side d io.chid).que.size
    → (queue_at side d io.chid).que.size < 2 ^ 16
    → (d' : Dev) × (io' : IoctlQueue) × (get_queue v d io ≡ some (ok, d', io'))
      × Holds (queue_at side d' io.chid).que []
get_queue-Holds v d io side e near short f h points high =
    let (d', p, t) = get_queue-Takes v d io side e near short f in
    let size = (queue_at side d io.chid).que.size in
    let same : (get_queue_at v d io side).1 ≡ d' = got_dev v d io side e near short p in
    let (heads, low_head) =
      subst
        (λ x.
          let q = (queue_at side x io.chid).que in (q.readhead ≡ q.writehead) × (q.readhead < size))
        same (get_queue_at_pointer v d io side size e f h points) in
    let kept = t.taken.place.1 in
    let q' = (queue_at side d' io.chid).que in
    let inside : q'.readhead < q'.size = omega (arith, kept, low_head) in
    (
      d',
      _,
      p,
      record {
        sized = omega (arith, kept, high);
        head = inside;
        fits = omega arith;
        tail = sym heads ∙ sym (place_zero q'.size q'.readhead inside);
        slots =
            λ k b. t.taken.ring _ (omega (arith, kept, place_lt q'.size q'.readhead k inside b));
        live = tt;
      },
    )
