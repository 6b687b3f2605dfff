-- ===== src/Ring/Command.antt =====
-- Command queues of lib/libfpga/src/libdma.c: `set_dma_cmd`, `get_dma_cmd`, `__fpga_enqueue` with
-- its three callers, `fpga_dequeue`, and the setters of the polling times. The address lookups of
-- other libraries (`dma_pa_from_va`, `rte_mem_virt2phy`, `local_phy2virt`) are functions that the
-- caller gives. A process is alone on the queue, so that the compare-and-set of a head succeeds.
use hardware_drivers.Prelude.{
  ℕ, ◌%◌, ◌^◌, Bool, true, false, not, ◌||◌, ◌&&◌, Option, none, some, if◌then◌else◌,
}
use hardware_drivers.Prelude.Int.{ℤ, pos, ltb_ℤ}

-- The library's error numbers, negated, that the modelled functions return.
pub data LibErrno : Type 0 where
  invalid_argument invalid_address enqueue_quefull dequeue_timeout : LibErrno

pub data LibRet : Type 0 where
  done : LibRet
  fail : LibErrno → LibRet

-- `dmacmd_info_t`; an address is 0 for NULL, and `desc_addr` is the slot of the descriptor.
pub record DmacmdInfo : Type 0 where
  pub task_id : ℕ
  pub data_len : ℕ
  pub data_addr : ℕ
  pub desc_addr : Option ℕ
  pub result_task_id : ℕ
  pub result_status : ℕ
  pub result_data_len : ℕ
  pub result_data_addr : ℕ

-- The static variables of the library: the polling times, in microseconds for a dequeue and in
-- seconds for the lookup of a queue, and `reference_once` of `set_dma_cmd`.
pub record Polling : Type 0 where
  pub dequeue_timeout : ℤ
  pub dequeue_interval : ℤ
  pub refqueue_timeout : ℤ
  pub refqueue_interval : ℤ
  pub reference_once : Bool

-- What other libraries answer: `dma_pa_from_va` from an address and a length, the physical address
-- and the length that is contiguous; `rte_mem_virt2phy`; `local_phy2virt`.
pub record Translate : Type 0 where
  pub pa_from_va : ℕ → ℕ → ℕ × ℕ
  pub virt2phy : ℕ → ℕ
  pub phy2virt : ℕ → ℕ

-- `ENQUEUE_ADDR_CHECK_TYPE`; `other_check` is every number that has no name.
pub data AddrCheck : Type 0 where
  virt_addr_with_check virt_addr_without_check phys_addr other_check : AddrCheck

abbrev pub shmem_boundary_size : ℕ
shmem_boundary_size = 1024

abbrev pub rte_cache_line_size : ℕ
rte_cache_line_size = 64

abbrev pub cmd_ready : ℕ
cmd_ready = 1

abbrev pub cmd_done : ℕ
cmd_done = 2

-- `set_dma_cmd` sets impossible polling times back to their defaults. What it measures after that
-- is only logged.
unfoldable pub check_timeout : Polling → Polling
check_timeout p =
    if ltb_ℤ p.dequeue_timeout (pos 10000) then record p { dequeue_timeout = pos 100000 } else p

unfoldable pub check_interval : Polling → Polling
check_interval p =
    if not (ltb_ℤ (pos 0) p.dequeue_interval)
      || ltb_ℤ (pos 999999) p.dequeue_interval
      || not (ltb_ℤ p.dequeue_interval p.dequeue_timeout)
    then record p { dequeue_interval = pos 100; reference_once = false }
    else p

-- Without a command (NULL) nothing changes.
unfoldable pub set_dma_cmd :
    Polling → Option DmacmdInfo → ℕ → ℕ → ℕ → LibRet × Option DmacmdInfo × Polling
set_dma_cmd p none task_id data_addr data_len = (fail invalid_argument, none, p)
set_dma_cmd p (some c) task_id data_addr data_len = (
  done,
  some (record c {
    task_id = task_id % 2 ^ 16;
    data_len = data_len % 2 ^ 32;
    data_addr = data_addr;
  }),
  record (check_interval (check_timeout p)) { reference_once = true },
)

-- Which of the four pointers given to `get_dma_cmd` are not NULL, and what it stores through them.
pub record Wanted : Type 0 where
  pub task_id : Bool
  pub data_addr : Bool
  pub data_len : Bool
  pub result_status : Bool

pub record Stored : Type 0 where
  pub task_id : Option ℕ
  pub data_addr : Option ℕ
  pub data_len : Option ℕ
  pub result_status : Option ℕ

abbrev pub stored_if : Bool → ℕ → Option ℕ
stored_if b x = if b then some x else none

unfoldable pub get_dma_cmd : DmacmdInfo → Wanted → LibRet × Stored
get_dma_cmd c w =
    if not w.task_id && not w.data_addr && not w.data_len && not w.result_status
    then (
      fail invalid_argument,
      record { task_id = none; data_addr = none; data_len = none; result_status = none },
    )
    else if w.result_status
    then (
      done,
      record {
        task_id = stored_if w.task_id c.result_task_id;
        data_addr = stored_if w.data_addr c.result_data_addr;
        data_len = stored_if w.data_len c.result_data_len;
        result_status = some c.result_status;
      },
    )
    else (
      done,
      record {
        task_id = stored_if w.task_id c.task_id;
        data_addr = stored_if w.data_addr c.data_addr;
        data_len = stored_if w.data_len c.data_len;
        result_status = none;
      },
    )

unfoldable pub set_dequeue_polling_timeout : Polling → ℤ → Polling
set_dequeue_polling_timeout p timeout = record p { dequeue_timeout = timeout }

unfoldable pub set_dequeue_polling_interval : Polling → ℤ → Polling
set_dequeue_polling_interval p interval = record p { dequeue_interval = interval }

unfoldable pub set_refqueue_polling_timeout : Polling → ℤ → Polling
set_refqueue_polling_timeout p timeout =
    if ltb_ℤ (pos 60) timeout || ltb_ℤ timeout (pos 0)
    then p
    else record p { refqueue_timeout = timeout }

unfoldable pub set_refqueue_polling_interval : Polling → ℤ → Polling
set_refqueue_polling_interval p interval =
    if ltb_ℤ (pos 60) interval || ltb_ℤ interval (pos 0)
    then p
    else record p { refqueue_interval = interval }
