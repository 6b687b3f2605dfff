-- ===== src/Chain/Ioctl/Stats.antt =====
-- The ioctl commands for the latencies, the counters and the check for faults, of
-- `xpcie_fpga_ioctl_chain` in driver/chain/xpcie_device_fops_chain.c.
use hardware_drivers.Prelude.{ℕ, Option, none, some}
use hardware_drivers.Device.{Dev}
use hardware_drivers.Chain.{Kind}
use hardware_drivers.Chain.Stats.{
  Counter, get_latency_chain, get_latency_func, get_chain_bytes, get_chain_frames, get_chain_buff,
  get_chain_bp, clear_chain_bp, get_chain_busy, check_chain_err,
}

-- A command with what the user's memory holds at the address `arg`; its last number is the field
-- for the result.
pub data StatCommand : Type 0 where
  latency_chain : (lane : ℕ) → Kind → (extif_id cid latency : ℕ) → StatCommand
  latency_func : (lane fchid latency : ℕ) → StatCommand
  chain_bytes : (lane : ℕ) → Counter → (cid_fchid byte_num : ℕ) → StatCommand
  chain_frames : (lane : ℕ) → Counter → (fchid frame_num : ℕ) → StatCommand
  chain_buff chain_bp chain_bp_clr egr_busy : (lane fchid frame_num : ℕ) → StatCommand
  chk_err : (lane err_all : ℕ) → StatCommand

-- A function that meets a number without a name stores nothing.
abbrev pub kept_or : ℕ → Option ℕ × Dev → ℕ × Dev
kept_or old (none, d) = (old, d)
kept_or old (some v, d) = (v, d)

abbrev pub with_result : (ℕ → StatCommand) → ℕ × Dev → StatCommand × Dev
with_result c (v, d) = (c v, d)

-- What the call of the driver's function leaves; every case copies the request back.
unfoldable pub run_stat : Dev → StatCommand → StatCommand × Dev
run_stat d (latency_chain lane dir extif_id cid old) =
    with_result (latency_chain lane dir extif_id cid)
      (kept_or old (get_latency_chain d lane dir extif_id cid))
run_stat d (latency_func lane fchid old) =
    with_result (latency_func lane fchid) (get_latency_func d lane fchid)
run_stat d (chain_bytes lane reg_id cid_fchid old) =
    with_result (chain_bytes lane reg_id cid_fchid)
      (kept_or old (get_chain_bytes d reg_id lane cid_fchid))
run_stat d (chain_frames lane reg_id fchid old) =
    with_result (chain_frames lane reg_id fchid)
      (kept_or old (get_chain_frames d reg_id lane fchid))
run_stat d (chain_buff lane fchid old) =
    with_result (chain_buff lane fchid) (get_chain_buff d lane fchid)
run_stat d (chain_bp lane fchid old) = with_result (chain_bp lane fchid) (get_chain_bp d lane fchid)
run_stat d (chain_bp_clr lane fchid frame_num) =
    (chain_bp_clr lane fchid frame_num, clear_chain_bp d lane fchid frame_num)
run_stat d (egr_busy lane fchid old) =
    with_result (egr_busy lane fchid) (get_chain_busy d lane fchid)
run_stat d (chk_err lane old) = with_result (chk_err lane) (check_chain_err d lane)
