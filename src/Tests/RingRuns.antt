-- ===== src/Tests/RingRuns.antt =====
-- The theorems on the command queue of the library at a ring of four slots.
use hardware_drivers.Prelude.{
  ℕ, ◌<◌, ◌≡◌, refl, arith, List, [], ◌∷◌, ◌++◌, ◌⊎◌, inl, inr, some, false, ℕ_discrete, update,
}
use hardware_drivers.Prelude.Int.{pos, negsuc, ltb_ℤ}
use hardware_drivers.Device.{Dev, Desc, Que, QueueInfo, free, zero_desc, enq, queue_at, ok}
use hardware_drivers.Lldma.Queue.{IoctlQueue, get_queue}
use hardware_drivers.Ring.Command.{DmacmdInfo, LibRet, done, virt_addr_with_check, Polling}
use hardware_drivers.Ring.Transfer.{
  next_head, fill_desc, check_cmd, check_addr, check_region, enqueue_desc, enqueue_checked,
  enqueue_valid, enqueue_cmd, store_result, take_desc, dequeue_loop,
}
use hardware_drivers.Ring.Fifo.{Holds}
use hardware_drivers.Ring.Completion.{Completes, IsFinished, ids}
use hardware_drivers.Ring.Loop.{Dequeued, dequeue_loop-Dequeued, dequeue_loop_ends, looks}
use hardware_drivers.Ring.Order.{Run, start, enqueues, dequeues, Run-Keeps}
use hardware_drivers.Ring.Safety.{IsBuffer, request, enqueue_cmd_safe}
use hardware_drivers.Ring.Fresh.{get_queue-Holds}
use hardware_drivers.Tests.Samples.{
  phys, board, ask, a_ring, a_command, same_address, finish_desc, finish, prompt,
}

a_ring-Holds : Holds a_ring []
a_ring-Holds = record {
  sized = omega arith;
  head = omega arith;
  fits = omega arith;
  tail = refl;
  slots = λ k b. refl;
  live = tt;
}

finish_slot : (d : Desc) → (finish_desc d ≡ d) ⊎ IsFinished d (finish_desc d)
finish_slot d = elim (ℕ_discrete d.op 1) [
  | yes e ↦ inr (e, ground arith, ground arith)
  | no n ↦ inl (ground (arith, n))
]

finish-Completes : (q : Que) → Completes q (finish q)
finish-Completes q = record {
  same_size = refl;
  same_readhead = refl;
  same_writehead = refl;
  slot = λ k. finish_slot (q.ring k);
}

-- The ring after `a_command` was enqueued, and after it was done and dequeued.
abbrev filled : Que
unfolding enqueue_desc
filled = (enqueue_desc a_ring a_command 0x8000).1

abbrev emptied : Que
unfolding next_head
emptied = record (finish filled) {
  readhead = next_head 4 3;
  ring = update (finish filled).ring 3 zero_desc;
}

abbrev result : DmacmdInfo
unfolding store_result
result = store_result same_address ((finish filled).ring 3) a_command

a-Run : Run same_address a_ring (7 ∷ []) (result.result_task_id ∷ []) emptied
unfolding filled emptied result enqueue_cmd enqueue_valid check_cmd check_addr check_region
    enqueue_checked enqueue_desc fill_desc next_head take_desc store_result dequeue_loop
a-Run =
    dequeues prompt (pos 100) 3 0 a_command result
      (enqueues virt_addr_with_check a_command (record a_command { desc_addr = some 3 }) start
        (λ e. omega arith) refl)
      (λ n q. finish-Completes q) refl

Run-Keeps_example :
    (cmds : List Desc) × Holds emptied cmds
    × ([] ++ 7 ∷ [] ≡ (result.result_task_id ∷ []) ++ ids cmds)
Run-Keeps_example =
    Run-Keeps same_address a_ring emptied [] (7 ∷ []) (result.result_task_id ∷ []) a_ring-Holds
      a-Run

-- A device with the driver's queues of 255 descriptors, whose FPGA shows the pointer 254.
abbrev small_queue : QueueInfo
small_queue = record {
  status = free;
  que = record { base = 0x200000; size = 255; readhead = 0; writehead = 0; ring = λ _. zero_desc };
  qp_mem_addr = 0x200000;
  qp_mem_size = 16384;
  connector_id = [];
}

abbrev small_idle : Dev
small_idle = board small_queue 0xFE000000

get_queue-Holds_example :
    (d' : Dev) × (io' : IoctlQueue) × (get_queue phys small_idle ask ≡ some (ok, d', io'))
    × Holds (queue_at enq d' 1).que []
unfolding queue_at
get_queue-Holds_example =
    get_queue-Holds phys small_idle ask enq refl (omega arith) (omega arith) refl (omega arith)
      (λ log. omega arith) (omega arith)

-- A ring of one slot that holds one command which is done.
abbrev done_desc : Desc
done_desc = record { task_id = 9; op = 2; status = 0; len = 1024; addr = 0x400 }

abbrev full_ring : Que
full_ring = record { base = 0x200000; size = 1; readhead = 0; writehead = 0; ring = λ _. done_desc }

zero_of_lt_one : (k : ℕ) → k < 1 → k ≡ 0
zero_of_lt_one k h = omega arith

full_ring-Holds : Holds full_ring (done_desc ∷ [])
full_ring-Holds = record {
  sized = omega arith;
  head = omega arith;
  fits = omega arith;
  tail = refl;
  slots = λ k b. rw (zero_of_lt_one k b) refl;
  live = ((λ e. omega arith, inr refl), tt);
}

drained : Que
drained = record full_ring { ring = update full_ring.ring 0 zero_desc }

dequeue_loop-Dequeued_example :
    Dequeued (9 ∷ []) done drained (store_result same_address done_desc a_command)
unfolding drained dequeue_loop take_desc next_head store_result
dequeue_loop-Dequeued_example =
    dequeue_loop-Dequeued same_address prompt (pos 100) (λ n q. finish-Completes q) 5 0 full_ring
      (done_desc ∷ []) a_command done drained (store_result same_address done_desc a_command)
      full_ring-Holds refl

prompt-IsClock : (n : ℕ) → ltb_ℤ (prompt.usec n) (pos n) ≡ false
prompt-IsClock n = ground arith

dequeue_loop_ends_example :
    (r : LibRet × Que × DmacmdInfo) × (dequeue_loop same_address prompt
        (pos 100)
        (looks (pos 100))
        0
        a_ring
        a_command
      ≡ some r)
dequeue_loop_ends_example =
    dequeue_loop_ends same_address prompt (pos 100) a_ring a_command prompt-IsClock

enqueue_cmd_safe_example :
    (pa : ℕ) × IsBuffer same_address a_command pa
    × (filled.ring 3 ≡ request same_address a_ring a_command pa)
unfolding filled enqueue_cmd enqueue_valid check_cmd check_addr check_region enqueue_checked
enqueue_cmd_safe_example =
    enqueue_cmd_safe same_address a_ring filled a_command (record a_command { desc_addr = some 3 })
      refl

abbrev no_polling : Polling
no_polling = record {
  dequeue_timeout = negsuc 4;
  dequeue_interval = pos 0;
  refqueue_timeout = pos 60;
  refqueue_interval = pos 1;
  reference_once = false;
}
