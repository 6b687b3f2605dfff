-- ===== src/Lldma/Alloc/Bounds.antt =====
-- The memory of a command queue is large enough.
use hardware_drivers.Prelude.{ℕ, ◌+◌, ◌*◌, ◌%◌, ◌≤◌, ◌≡◌, ◌≢◌, false, refl, arith, ◌==◌}
use hardware_drivers.Device.{QueueInfo, ok, zero_desc}
use hardware_drivers.Lldma.Alloc.{alloc_bytes, queue_que_init, page_size}

nonzero : (ptr : ℕ) → ptr ≢ 0 → (ptr == 0) ≡ false
nonzero ptr h = ground arith

-- `queue_que_init`, for every length of queue and every page-aligned address that `kzalloc` may
-- return: the queue starts at the allocation and, header and descriptors together, ends inside it,
-- its size is a whole number of cache lines, and it is empty and free.
pub queue_que_init_fits :
    (qp : QueueInfo) (size ptr : ℕ)
    → ptr ≢ 0
    → ptr % page_size ≡ 0
    → let (r, q) = queue_que_init qp size ptr in
      (r ≡ ok)
      × (q.que.base ≡ ptr)
      × (64 + 64 * q.que.size ≤ q.qp_mem_size)
      × (q.que.base + q.qp_mem_size ≤ ptr + alloc_bytes size)
      × (q.qp_mem_size % 64 ≡ 0)
      × (q.que.readhead ≡ q.que.writehead)
      × ((k : ℕ) → q.que.ring k ≡ zero_desc)
unfolding queue_que_init
queue_que_init_fits qp size ptr h a =
    rw (nonzero ptr h) (refl, omega arith, omega arith, omega arith, omega arith, refl, λ k. refl)
