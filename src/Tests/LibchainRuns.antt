-- ===== src/Tests/LibchainRuns.antt =====
-- The theorems on the chain control of the user library at a process with one opened device.
use hardware_drivers.Prelude.{
  ◌<◌, ℕ, ◌≤◌, ◌≡◌, refl, arith, true, false, none, some, [], ◌==◌, if◌then◌else◌,
}
use hardware_drivers.Prelude.Int.{pos}
use hardware_drivers.Device.{Dev, free, ok}
use hardware_drivers.Chain.Stats.{egr_rcv1}
use hardware_drivers.Chain.Deletion.{empty_entry}
use hardware_drivers.Chain.Ioctl.{run_chain, ioctl_chain, stat}
use hardware_drivers.Chain.Ioctl.Stats.{StatCommand, run_stat, chain_bytes}
use hardware_drivers.Chain.Kept.{ioctl_chain-OnBus}
use hardware_drivers.Chain.Kept.Faults.{OnBus}
use hardware_drivers.Libchain.{
  LibRet, success, failed, func_chain_id_mismatch, FpgaDevice, Host, ConnectArgs, chain_connect,
  chain_disconnect,
}
use hardware_drivers.Libchain.Frame.{Held}
use hardware_drivers.Libchain.Links.{Linked, egress_at}
use hardware_drivers.Libchain.Connects.{Connects, chain_connect-Connects}
use hardware_drivers.Libchain.Disconnects.{
  Disconnects, chain_disconnect-Disconnects, disconnect_needs_ingress,
}
use hardware_drivers.Libchain.Reverse.{disconnect_after_connect}
use hardware_drivers.Libchain.Queries.{chain_read_soft_table}
use hardware_drivers.Libchain.Soft.{all_wanted, connected_ids, soft_table_after_connect}
use hardware_drivers.Libchain.Wait.{Outside, chain_wait}
use hardware_drivers.Libchain.Wait.Loop.{slept_for, at_look}
use hardware_drivers.Libchain.Wait.Ends.{seen, after_look, chain_wait-Ends}
use hardware_drivers.Tests.Samples.{board, queue_of}

abbrev a_device : FpgaDevice
a_device = record { fd = 3; chain_num = 2 }

-- One card whose registers all hold 1, so that it answers every request.
abbrev a_host : Host
a_host = record {
  kernel = record { extifinv = false; garbage = 0 };
  devices = λ i. if i == 0 then some a_device else none;
  card_of = λ fd. 0;
  cards = λ i. board (queue_of free []) 1;
}

abbrev some_args : ConnectArgs
some_args = record {
  lane = 1;
  fchid = 5;
  ingress_extif_id = 0;
  ingress_cid = 7;
  egress_extif_id = 1;
  egress_cid = 300;
  ingress_active_flag = 1;
  egress_active_flag = 1;
  direct_flag = 0;
  egress_virtual_flag = 0;
  egress_blocking_flag = 1;
}

chain_connect-Connects_example :
    (r : LibRet) × (h' : Host) × (chain_connect a_host 0 some_args ≡ some (r, h'))
    × Connects a_host 0 a_device some_args r h'
chain_connect-Connects_example =
    chain_connect-Connects a_host 0 a_device some_args refl (omega arith)

chain_disconnect-Disconnects_example :
    (r : LibRet) × (h' : Host) × (chain_disconnect a_host 0 1 5 ≡ some (r, h'))
    × Disconnects a_host a_device 1 5 r h'
chain_disconnect-Disconnects_example =
    chain_disconnect-Disconnects a_host 0 a_device 1 5 refl (omega arith)

disconnect_needs_ingress_example :
    (h' : Host) × (chain_disconnect a_host 0 1 5 ≡ some (failed func_chain_id_mismatch, h'))
    × (egress_at h' a_device 1 5 ≡ empty_entry)
disconnect_needs_ingress_example =
    disconnect_needs_ingress a_host 0 a_device 1 5 refl (omega arith) refl refl

disconnect_after_connect_example :
    (h1 : Host) × (h2 : Host) × (chain_connect a_host 0 some_args ≡ some (success, h1))
    × Linked a_host h1 a_device 1 5
        (record { extif_id = pos 0; cid = pos 7 })
        (record { extif_id = pos 1; cid = pos 300 })
    × (chain_disconnect h1 0 1 5 ≡ some (success, h2))
    × Linked a_host h2 a_device 1 5 empty_entry empty_entry
disconnect_after_connect_example =
    disconnect_after_connect a_host 0 a_device some_args refl (omega arith) refl refl
      (record { ingress_answers = λ log. refl; egress_answers = λ log. refl })

-- The process after the connection.
a_connected : (h1 : Host) × (chain_connect a_host 0 some_args ≡ some (success, h1))
a_connected =
    let (h1, h2, p, c, q, c2) =
      disconnect_after_connect a_host 0 a_device some_args refl (omega arith) refl refl
        (record { ingress_answers = λ log. refl; egress_answers = λ log. refl }) in
    (h1, p)

soft_table_after_connect_example :
    (h2 : Host) × Held a_connected.0 h2 a_device
    × (chain_read_soft_table a_connected.0 all_wanted 0 1 5
        ≡ some (success, h2, some (connected_ids some_args)))
soft_table_after_connect_example =
    soft_table_after_connect a_host a_connected.0 0 a_device some_args refl (omega arith)
      a_connected.1

-- Sleeps of 600 microseconds, and other processes that do nothing.
abbrev quiet : Outside
quiet = record { slept = λ k. 600000; others = λ k h. h }

-- The chain is never connected: the wait of a millisecond and more than 1000000 rounds of fuel.
chain_wait-Ends_example :
    (n : ℕ) × (chain_wait true true 1000001 quiet a_host true
        (some (record { tv_sec = 0; tv_usec = 1000 }))
        0
        1
        5
      ≡ some (
        success,
        after_look a_device (at_look quiet (after_look a_device) 0 a_host n),
        some (seen (at_look quiet (after_look a_device) 0 a_host n) a_device 1 5 true true),
      ))
    × (seen (at_look quiet (after_look a_device) 0 a_host n) a_device 1 5 true true ≡ false
        → 1000000 ≤ slept_for quiet 0 n)
    × ((k : ℕ)
        → k < n
        → (seen (at_look quiet (after_look a_device) 0 a_host k) a_device 1 5 true true ≡ false)
          × (slept_for quiet 0 k < 1000000))
chain_wait-Ends_example =
    chain_wait-Ends true true 1000001 quiet a_host (some (record { tv_sec = 0; tv_usec = 1000 })) 0
      a_device 1 5 refl (omega arith) refl (λ k g e. e) (λ k. omega arith) (omega arith)

-- The driver after a byte counter was read for a caller.
abbrev counted : StatCommand × Dev
unfolding run_stat
counted = run_stat (board (queue_of free []) 1) (chain_bytes 1 egr_rcv1 5 0)

counts :
    ioctl_chain a_host.kernel true true
      (board (queue_of free []) 1)
      (stat (chain_bytes 1 egr_rcv1 5 0))
    ≡ some (ok, counted.1, stat counted.0)
unfolding ioctl_chain run_chain run_stat
counts = refl

ioctl_chain-OnBus_example : OnBus (board (queue_of free []) 1) counted.1
ioctl_chain-OnBus_example =
    ioctl_chain-OnBus a_host.kernel true true (board (queue_of free []) 1) counted.1
      (stat (chain_bytes 1 egr_rcv1 5 0)) (stat counted.0) ok refl counts
