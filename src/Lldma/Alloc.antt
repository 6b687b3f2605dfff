-- ===== src/Lldma/Alloc.antt =====
-- Memory of a command queue, driver/lldma/libxpcie_lldma.c: `queue_que_init` and
-- `queue_que_free`. `kzalloc` is the kernel's: its result is an argument, 0 for NULL.
pub mod Bounds
use hardware_drivers.Prelude.{ℕ, ◌+◌, ◌-◌, ◌*◌, ◌/◌, [], if◌then◌else◌, ◌==◌}
use hardware_drivers.Device.{QueueInfo, Que, free, zero_desc, Ret, ok, err, enomem}

-- `ALIGN_FLOOR(val, align)` clears the low bits of `val`: at a power of two it rounds down to a
-- multiple.
abbrev pub align_floor : ℕ → ℕ → ℕ
align_floor val align = val / align * align

abbrev pub align_ceil : ℕ → ℕ → ℕ
align_ceil val align = align_floor (val + (align - 1)) align

abbrev pub cache_line_size : ℕ
cache_line_size = 64

abbrev pub page_size : ℕ
page_size = 4096

-- 64 bytes of header and 64 bytes for each descriptor.
abbrev pub queue_bytes : ℕ → ℕ
queue_bytes size = align_ceil (64 + 64 * size) cache_line_size

abbrev pub alloc_bytes : ℕ → ℕ
alloc_bytes size = align_ceil (queue_bytes size) page_size

-- `ptr` is what `kzalloc(alloc_bytes size)` returned: memory of zeros.
unfoldable pub queue_que_init : QueueInfo → ℕ → ℕ → Ret × QueueInfo
queue_que_init qp size ptr = if ptr == 0 then (err enomem, qp) else (
  ok,
  record qp {
    status = free;
    que = record {
      base = align_ceil ptr page_size;
      size = size;
      readhead = 0;
      writehead = 0;
      ring = λ _. zero_desc;
    };
    qp_mem_addr = ptr;
    qp_mem_size = queue_bytes size;
  },
)

-- The memory goes back to the kernel, and the record becomes zeros: FREE, NULL and empty.
unfoldable pub queue_que_free : QueueInfo → QueueInfo
queue_que_free qp = record {
  status = free;
  que = record { base = 0; size = 0; readhead = 0; writehead = 0; ring = λ _. zero_desc };
  qp_mem_addr = 0;
  qp_mem_size = 0;
  connector_id = [];
}
