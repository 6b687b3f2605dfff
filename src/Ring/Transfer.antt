-- ===== src/Ring/Transfer.antt =====
-- `__fpga_enqueue` with its three callers, and `fpga_dequeue`, of lib/libfpga/src/libdma.c. A
-- process is alone on the queue, so that the compare-and-set of a head succeeds.
use hardware_drivers.Prelude.{
  ℕ, zero, suc, ◌+◌, ◌%◌, ◌^◌, not, ◌||◌, ◌&&◌, Option, none, some, ltb, ◌==◌, if◌then◌else◌,
  update,
}
use hardware_drivers.Prelude.Int.{ℤ, ltb_ℤ}
use hardware_drivers.Device.{Desc, Que, zero_desc}
use hardware_drivers.Ring.Command.{
  LibErrno, invalid_argument, invalid_address, enqueue_quefull, dequeue_timeout, LibRet, done, fail,
  DmacmdInfo, Translate, AddrCheck, virt_addr_with_check, virt_addr_without_check, phys_addr,
  other_check, shmem_boundary_size, rte_cache_line_size, cmd_ready, cmd_done,
}

-- The physical address that a check gives, or its error.
pub data Checked : Type 0 where
  phys : ℕ → Checked
  bad : LibErrno → Checked

-- The tests of the command at the start of `__fpga_enqueue`, in their order.
unfoldable pub check_cmd : DmacmdInfo → Option LibErrno
check_cmd c =
    if ltb c.data_len shmem_boundary_size
    then some invalid_argument
    else if not (c.data_len % rte_cache_line_size == 0)
    then some invalid_argument
    else if c.data_addr == 0
    then some invalid_address
    else none

unfoldable pub check_region : DmacmdInfo → ℕ → ℕ → Checked
check_region c dst_pa64 chklen =
    if dst_pa64 == 0 || not (dst_pa64 % shmem_boundary_size == 0) || not (c.data_len == chklen)
    then bad invalid_address
    else phys dst_pa64

unfoldable pub check_addr : Translate → AddrCheck → DmacmdInfo → Checked
check_addr t virt_addr_with_check c =
    if not (c.data_len == 0) && not (c.data_addr == 0)
    then check_region c (t.pa_from_va c.data_addr c.data_len).0
        (t.pa_from_va c.data_addr c.data_len).1
    else phys 0
check_addr t virt_addr_without_check c = phys (t.virt2phy c.data_addr)
check_addr t phys_addr c = phys c.data_addr
check_addr t other_check c = bad invalid_argument

-- The head after `head`, an `uint16_t`.
unfoldable pub next_head : ℕ → ℕ → ℕ
next_head size head = if (head + 1) % 2 ^ 16 == size then 0 else (head + 1) % 2 ^ 16

-- The descriptor after the writes of an enqueue; the status stays.
unfoldable pub fill_desc : DmacmdInfo → ℕ → Desc → Desc
fill_desc c dst_pa64 desc = record {
  task_id = c.task_id;
  op = cmd_ready;
  status = desc.status;
  len = if dst_pa64 == 0 then 0 else c.data_len;
  addr = dst_pa64;
}

-- The rest of `__fpga_enqueue` once the address is known.
unfoldable pub enqueue_desc : Que → DmacmdInfo → ℕ → LibRet × Que × DmacmdInfo
enqueue_desc enq c dst_pa64 =
    if not ((enq.ring enq.writehead).task_id == 0) then (fail enqueue_quefull, enq, c) else (
      done,
      record enq {
        writehead = next_head enq.size enq.writehead;
        ring = update enq.ring enq.writehead (fill_desc c dst_pa64 (enq.ring enq.writehead));
      },
      record c { desc_addr = some enq.writehead },
    )

unfoldable pub enqueue_checked : Que → DmacmdInfo → Checked → LibRet × Que × DmacmdInfo
enqueue_checked enq c (bad e) = (fail e, enq, c)
enqueue_checked enq c (phys dst_pa64) = enqueue_desc enq c dst_pa64

unfoldable pub enqueue_valid :
    Translate → AddrCheck → Que → DmacmdInfo → Option LibErrno → LibRet × Que × DmacmdInfo
enqueue_valid t flag enq c (some e) = (fail e, enq, c)
enqueue_valid t flag enq c none = enqueue_checked enq c (check_addr t flag c)

unfoldable pub enqueue_cmd : Translate → AddrCheck → Que → DmacmdInfo → LibRet × Que × DmacmdInfo
enqueue_cmd t flag enq c = enqueue_valid t flag enq c (check_cmd c)

-- A NULL `dma_info` or `cmd_info` of the three callers.
unfoldable pub enqueue_as :
    AddrCheck → Translate → Option Que → Option DmacmdInfo → LibRet × Option Que × Option DmacmdInfo
enqueue_as flag t (some enq) (some c) =
    let (r, enq', c') = enqueue_cmd t flag enq c in (r, some enq', some c')
enqueue_as flag t enq c = (fail invalid_argument, enq, c)

abbrev pub fpga_enqueue :
    Translate → Option Que → Option DmacmdInfo → LibRet × Option Que × Option DmacmdInfo
fpga_enqueue = enqueue_as virt_addr_with_check

abbrev pub fpga_enqueue_without_addrcheck :
    Translate → Option Que → Option DmacmdInfo → LibRet × Option Que × Option DmacmdInfo
fpga_enqueue_without_addrcheck = enqueue_as virt_addr_without_check

abbrev pub fpga_enqueue_with_physaddr :
    Translate → Option Que → Option DmacmdInfo → LibRet × Option Que × Option DmacmdInfo
fpga_enqueue_with_physaddr = enqueue_as phys_addr

-- What a dequeue stores in the command from the descriptor.
unfoldable pub store_result : Translate → Desc → DmacmdInfo → DmacmdInfo
store_result t desc c = record c {
  result_task_id = desc.task_id;
  result_status = desc.status;
  result_data_len = desc.len;
  result_data_addr = if desc.addr == 0 then 0 else t.phy2virt desc.addr;
}

-- One look of `fpga_dequeue` at the head: nothing, or the queue and the command after taking it.
unfoldable pub take_desc : Translate → Que → DmacmdInfo → Option (Que × DmacmdInfo)
take_desc t deq c =
    if not ((deq.ring deq.readhead).op == cmd_done)
    then none
    else some (
      record deq {
        readhead = next_head deq.size deq.readhead;
        ring = update deq.ring deq.readhead zero_desc;
      },
      store_result t (deq.ring deq.readhead) c,
    )

-- What goes on outside a dequeue: the queue that its look `n` finds, from the one that the look
-- before left, and the microseconds that it measures then.
pub record Outside : Type 0 where
  pub fpga : ℕ → Que → Que
  pub usec : ℕ → ℤ

-- The endless loop of `fpga_dequeue`, for `fuel` looks, the first of them look `n`: nothing if it
-- still goes on after them.
unfoldable pub dequeue_loop :
    Translate → Outside → ℤ → ℕ → ℕ → Que → DmacmdInfo → Option (LibRet × Que × DmacmdInfo)
dequeue_loop t w timeout zero n deq c = none
dequeue_loop t w timeout (suc fuel) n deq c =
    let deq1 = w.fpga n deq in
    let rest = dequeue_loop t w timeout fuel (n + 1) deq1 c in
    elim (take_desc t deq1 c) [
      | some (deq2, c2) ↦ some (done, deq2, c2)
      | none ↦ if not (ltb_ℤ (w.usec n) timeout) then some (fail dequeue_timeout, deq1, c) else rest
    ]

-- A NULL `dma_info` or `cmd_info` is refused before the loop.
unfoldable pub fpga_dequeue :
    Translate
    → Outside
    → ℤ
    → ℕ
    → Option Que
    → Option DmacmdInfo
    → Option (LibRet × Option Que × Option DmacmdInfo)
fpga_dequeue t w timeout fuel (some deq) (some c) = elim (dequeue_loop t w timeout fuel 0 deq c) [
  | some (r, deq', c') ↦ some (r, some deq', some c')
  | none ↦ none
]
fpga_dequeue t w timeout fuel deq c = some (fail invalid_argument, deq, c)
