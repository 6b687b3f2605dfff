-- ===== src/Ring/Workers.antt =====
-- Several processes in `__fpga_enqueue` of lib/libfpga/src/libdma.c on one command queue at a time,
-- one access to the shared queue after another. The compare-and-set of the head is one access.
-- `age` is not in the code: it is how many times the head has been moved since a process read it.
pub mod Alone
pub mod Sound
pub mod Follow
pub mod Heads
pub mod Accesses
pub mod Apart
use hardware_drivers.Prelude.{
  ℕ, zero, suc, ◌+◌, ◌<◌, ◌≡◌, ◌≢◌, Bool, true, false, not, Option, none, some, ◌==◌, if◌then◌else◌,
  update,
}
use hardware_drivers.Device.{Desc, Que}
use hardware_drivers.Ring.Command.{DmacmdInfo, Translate, cmd_ready, cmd_done}
use hardware_drivers.Ring.Transfer.{next_head, take_desc}

-- Where a process is: it has yet to read the head, it has read it, it has seen that the descriptor
-- is free, it has moved the head, it has written the address and the length, and the task id. At
-- the end its descriptor is ready, or the queue was full.
pub data Worker : Type 0 where
  begin : Worker
  looked checked claimed addressed named finished : (current_head : ℕ) → Worker
  full : Worker

-- What an access does to the head.
pub data Effect : Type 0 where
  plain reads moves : Effect

abbrev pub with_desc : Que → ℕ → Desc → Que
with_desc q k desc = record q { ring = update q.ring k desc }

abbrev pub with_address : DmacmdInfo → ℕ → Desc → Desc
with_address c dst_pa64 desc = record desc {
  addr = dst_pa64;
  len = if dst_pa64 == 0 then 0 else c.data_len;
}

-- The next access of a process with a command and its physical address.
unfoldable pub access : DmacmdInfo → ℕ → Que → Worker → Que × Worker × Effect
unfolding next_head
access c dst_pa64 enq begin = (enq, looked enq.writehead, reads)
access c dst_pa64 enq (looked k) =
    if not ((enq.ring k).task_id == 0) then (enq, full, plain) else (enq, checked k, plain)
access c dst_pa64 enq (checked k) =
    if enq.writehead == k
    then (record enq { writehead = next_head enq.size k }, claimed k, moves)
    else (enq, begin, plain)
access c dst_pa64 enq (claimed k) =
    (with_desc enq k (with_address c dst_pa64 (enq.ring k)), addressed k, plain)
access c dst_pa64 enq (addressed k) =
    (with_desc enq k (record (enq.ring k) { task_id = c.task_id }), named k, plain)
access c dst_pa64 enq (named k) =
    (with_desc enq k (record (enq.ring k) { op = cmd_ready }), finished k, plain)
access c dst_pa64 enq (finished k) = (enq, finished k, plain)
access c dst_pa64 enq full = (enq, full, plain)

-- A process that makes a number of accesses while no other makes any.
unfoldable pub alone : ℕ → DmacmdInfo → ℕ → Que → Worker → Que × Worker
unfolding access
alone zero c dst_pa64 enq x = (enq, x)
alone (suc n) c dst_pa64 enq x =
    let (enq', x', f) = access c dst_pa64 enq x in alone n c dst_pa64 enq' x'

-- The queue, and of each process where it is, what it enqueues and the age of what it has read.
pub record World : Type 0 where
  pub que : Que
  pub worker : ℕ → Worker
  pub command : ℕ → DmacmdInfo
  pub dst_pa64 : ℕ → ℕ
  pub age : ℕ → ℕ

abbrev pub aged : Effect → ℕ → (ℕ → ℕ) → ℕ → ℕ
aged plain i age = age
aged reads i age = update age i 0
aged moves i age = update (λ j. age j + 1) i 1

abbrev pub after_access : World → ℕ → Que × Worker × Effect → World
after_access w i (q, x, f) = record w {
  que = q;
  worker = update w.worker i x;
  age = aged f i w.age;
}

unfoldable pub work : World → ℕ → World
unfolding access
work w i = after_access w i (access (w.command i) (w.dst_pa64 i) w.que (w.worker i))

-- A process that is in no call begins one.
abbrev pub is_out : Worker → Bool
is_out (finished k) = true
is_out full = true
is_out x = false

abbrev pub call : World → ℕ → DmacmdInfo → ℕ → World
call w i c dst_pa64 = record w {
  worker = update w.worker i begin;
  command = update w.command i c;
  dst_pa64 = update w.dst_pa64 i dst_pa64;
}

-- The FPGA finishes the command of a descriptor that is ready.
abbrev pub finish : Que → ℕ → Que
finish q k = with_desc q k (record (q.ring k) { op = cmd_done })

pub data Step (w : World) : World → Type 0 where
  works : (i : ℕ) → Step w (work w i)
  calls :
      (i : ℕ) (c : DmacmdInfo) (dst_pa64 : ℕ)
      → is_out (w.worker i) ≡ true
      → c.task_id ≢ 0
      → Step w (call w i c dst_pa64)
  finishes : (k : ℕ) → (w.que.ring k).op ≡ cmd_ready → Step w (record w { que = finish w.que k })
  dequeues :
      (t : Translate) (c : DmacmdInfo) {q : Que} {c' : DmacmdInfo}
      → take_desc t w.que c ≡ some (q, c')
      → Step w (record w { que = q })

-- The descriptor that a process has read from the head or moved the head past.
abbrev pub slot_of : Worker → Option ℕ
slot_of begin = none
slot_of (looked k) = some k
slot_of (checked k) = some k
slot_of (claimed k) = some k
slot_of (addressed k) = some k
slot_of (named k) = some k
slot_of (finished k) = none
slot_of full = none

-- The descriptor that a process writes.
abbrev pub held : Worker → Option ℕ
held (claimed k) = some k
held (addressed k) = some k
held (named k) = some k
held x = none

-- No process lets the head go once around the ring while it is in the middle of its call.
abbrev pub Timely : World → Type 0
Timely w = (i k : ℕ) → slot_of (w.worker i) ≡ some k → w.age i < w.que.size

-- The sequences of steps in which this holds.
pub data Run (w : World) : World → Type 0 where
  stop : Run w w
  step : {u v : World} → Run w u → Step u v → Timely v → Run w v
