-- ===== src/Tests/Samples.antt =====
-- Concrete devices, queues and requests.
use hardware_drivers.Prelude.{ℕ, ◌+◌, ◌*◌, ◌==◌, ◌∷◌, [], List, if◌then◌else◌, none}
use hardware_drivers.Prelude.Int.{pos, negsuc}
use hardware_drivers.Device.{
  Dev, host_to_dev, d2d_rx, QueueInfo, QueueStatus, free, used, zero_desc, Desc, Que,
}
use hardware_drivers.Lldma.Queue.{IoctlQueue}
use hardware_drivers.Lldma.Connect.{Connection}
use hardware_drivers.Chain.{FpgaId}
use hardware_drivers.Ring.Command.{DmacmdInfo, Translate}
use hardware_drivers.Ring.Transfer.{Outside}

-- Physical and virtual addresses are the same.
abbrev pub phys : ℕ → ℕ
phys a = a

abbrev pub a_name : List ℕ
a_name = 65 ∷ 66 ∷ []

abbrev pub queue_of : QueueStatus → List ℕ → QueueInfo
queue_of status id = record {
  status = status;
  que = record { base = 0x200000; size = 512; readhead = 0; writehead = 0; ring = λ _. zero_desc };
  qp_mem_addr = 0x200000;
  qp_mem_size = 64 + 64 * 512;
  connector_id = id;
}

-- A device whose queues are all alike and whose registers all hold `word`.
abbrev pub board : QueueInfo → ℕ → Dev
board q word = record {
  bus = record { log = []; answer = λ _ _. word };
  global = record { base = 0; len = 0x1000; num = 2; refcount = λ _. pos 0 };
  chain = record { base = 0x1000; len = 0x1000; num = 2; refcount = λ _. pos 0 };
  direct = record { base = 0x5000; len = 0x1000; num = 2; refcount = λ _. pos 0 };
  lldma = record { base = 0x10000; len = 0x10000; num = 1; refcount = λ _. pos 0 };
  available_dma_channel_num = 4;
  enqueues = λ _. q;
  dequeues = λ _. q;
  fch_dev_table = λ _ _ _. record { extif_id = negsuc 0; cid = negsuc 0 };
}

abbrev pub idle : Dev
idle = board (queue_of free []) 0

abbrev pub taken : Dev
taken = board (queue_of used a_name) 0

abbrev pub ask : IoctlQueue
ask = record { dir = host_to_dev; chid = 1; map_size = 0; connector_id = a_name }

abbrev pub a_connection : Connection
a_connection = record {
  self_chid = 2;
  peer_chid = 3;
  dir = d2d_rx;
  peer_addr = 0x300000;
  buf_size = 4096;
  buf_addr = 0x400000;
  connector_id = a_name;
}

abbrev pub an_id : FpgaId
an_id = record {
  lane = 1;
  extif_id = 1;
  cid = 300;
  fchid = 5;
  enable_flag = 1;
  active_flag = 0;
  direct_flag = 1;
  virtual_flag = 0;
  blocking_flag = 1;
}

abbrev pub a_ring : Que
a_ring = record { base = 0x200000; size = 4; readhead = 3; writehead = 3; ring = λ _. zero_desc }

abbrev pub a_command : DmacmdInfo
a_command = record {
  task_id = 7;
  data_len = 2048;
  data_addr = 0x8000;
  desc_addr = none;
  result_task_id = 0;
  result_status = 0;
  result_data_len = 0;
  result_data_addr = 0;
}

abbrev pub same_address : Translate
same_address = record { pa_from_va = λ a n. (a, n); virt2phy = λ a. a; phy2virt = λ a. a }

-- An FPGA that finishes every command at once.
abbrev pub finish_desc : Desc → Desc
finish_desc d = if d.op == 1 then record d { op = 2 } else d

abbrev pub finish : Que → Que
finish q = record q { ring = λ k. finish_desc (q.ring k) }

abbrev pub prompt : Outside
prompt = record { fpga = λ _ q. finish q; usec = λ n. pos n }
