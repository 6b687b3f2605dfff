-- ===== src/Chain/Ioctl.antt =====
-- The ioctl commands of the chain module, `xpcie_fpga_ioctl_chain` of
-- driver/chain/xpcie_device_fops_chain.c: the table, the lanes, the offsets in DDR memory, the
-- state of a connection, and those of the two modules for statistics and for faults.
pub mod Stats
pub mod Faults
use hardware_drivers.Prelude.{ℕ, Bool, true, false, not, ◌&&◌, Option, none, some, if◌then◌else◌}
use hardware_drivers.Device.{Dev, Ret, ok, err, efault, einval}
use hardware_drivers.Chain.{
  ingress, egress, FpgaId, update_func_chain_table, delete_func_chain_table,
}
use hardware_drivers.Chain.Read.{
  read_func_chain_table, read_chain_soft_table, reset_chain_soft_table, start_chain_module,
  stop_chain_module, get_chain_ctrl, get_chain_module_id,
}
use hardware_drivers.Chain.Stats.{ChainDdr, get_ddr_offset_frame}
use hardware_drivers.Chain.Ddr.{set_ddr_offset_frame}
use hardware_drivers.Chain.Faults.Stalls.{get_chain_con_status}
use hardware_drivers.Chain.Ioctl.Stats.{StatCommand, run_stat}
use hardware_drivers.Chain.Ioctl.Faults.{FaultCommand, run_fault}

-- `fpga_ioctl_chain_ids_t`
pub record ChainIds : Type 0 where
  pub lane : ℕ
  pub fchid : ℕ
  pub ingress_extif_id : ℕ
  pub ingress_cid : ℕ
  pub egress_extif_id : ℕ
  pub egress_cid : ℕ

-- A command with what the user's memory holds at the address `arg`. `other_command` is every number
-- that the switch has no case for.
pub data Command : Type 0 where
  update_table_ingr update_table_egr : FpgaId → Command
  delete_table_ingr delete_table_egr : FpgaId → Command
  read_table_ingr read_table_egr : FpgaId → Command
  start_module stop_module : (lane : ℕ) → Command
  set_ddr : (lane extif_id : ℕ) → Command
  get_ddr : (lane extif_id : ℕ) → ChainDdr → Command
  get_module get_module_id : (lane value : ℕ) → Command
  get_connection : (lane extif_id cid value : ℕ) → Command
  read_soft_table : ChainIds → Command
  stat : StatCommand → Command
  fault : FaultCommand → Command
  reset_soft_table : Command
  other_command : Command

-- What the call returns, the driver and the user's memory after it.
abbrev pub Answer : Type 0
Answer = Ret × Dev × Command

-- How the driver was built, and what a local variable holds that no statement has set.
pub record Kernel : Type 0 where
  pub extifinv : Bool
  pub garbage : ℕ

-- The end of a case that stores nothing, of one that copies what it stored to the user's memory,
-- and of one that does so only if the driver's function has returned 0.
abbrev pub stored : Bool → Dev → Command → Command → Answer
stored writable d before after = if writable then (ok, d, after) else (err efault, d, before)

abbrev pub updated : Option (Ret × Dev) → Command → Option Answer
updated none c = none
updated (some (r, d)) c = some (r, d, c)

abbrev pub stored_if_ok :
    Bool → Option (Ret × Dev × FpgaId) → (FpgaId → Command) → Command → Option Answer
stored_if_ok writable none after before = none
stored_if_ok writable (some (ok, d, id)) after before = some (stored writable d before (after id))
stored_if_ok writable (some (err e, d, id)) after before = some (err e, d, before)

abbrev pub stored_ddr : Bool → Option ChainDdr × Dev → ℕ → ℕ → Command → Answer
stored_ddr writable (some ddr, d) lane extif_id before =
    stored writable d before (get_ddr lane extif_id ddr)
stored_ddr writable (none, d) lane extif_id before = stored writable d before before

abbrev pub stored_fault : Bool → FaultCommand → Option FaultCommand × Dev → Answer
stored_fault writable c (none, d) = (ok, d, fault c)
stored_fault writable c (some c', d) = stored writable d (fault c) (fault c')

abbrev pub stored_ids : Bool → Dev → Option ((ℕ × ℕ) × (ℕ × ℕ)) → ChainIds → Option Answer
stored_ids writable d none ids = none
stored_ids writable d (some ((ix, ic), (ex, ec))) ids = some (
    stored writable d (read_soft_table ids) (
      read_soft_table (record ids {
        ingress_extif_id = ix;
        ingress_cid = ic;
        egress_extif_id = ex;
        egress_cid = ec;
      })))

-- The cases of the switch once the argument has been read from the user's memory.
unfoldable pub run_chain : Kernel → Bool → Dev → Command → Option Answer
unfolding start_chain_module stop_chain_module
run_chain k writable d (update_table_ingr id) =
    updated (update_func_chain_table d id ingress) (update_table_ingr id)
run_chain k writable d (update_table_egr id) =
    updated (update_func_chain_table d id egress) (update_table_egr id)
run_chain k writable d (delete_table_ingr id) =
    stored_if_ok writable (delete_func_chain_table d id ingress) delete_table_ingr
      (delete_table_ingr id)
run_chain k writable d (delete_table_egr id) =
    stored_if_ok writable (delete_func_chain_table d id egress) delete_table_egr
      (delete_table_egr id)
run_chain k writable d (read_table_ingr id) =
    stored_if_ok writable (read_func_chain_table d id ingress) read_table_ingr (read_table_ingr id)
run_chain k writable d (read_table_egr id) =
    stored_if_ok writable (read_func_chain_table d id egress) read_table_egr (read_table_egr id)
run_chain k writable d (start_module lane) = some (ok, start_chain_module d lane, start_module lane)
run_chain k writable d (stop_module lane) = some (ok, stop_chain_module d lane, stop_module lane)
run_chain k writable d (set_ddr lane extif_id) =
    let d' = set_ddr_offset_frame k.extifinv d extif_id lane in
    some (stored writable d' (set_ddr lane extif_id) (set_ddr lane extif_id))
run_chain k writable d (get_ddr lane extif_id ddr) = some (
    stored_ddr writable (get_ddr_offset_frame d extif_id lane) lane extif_id
      (get_ddr lane extif_id ddr))
run_chain k writable d (get_module lane value) =
    let (v, d') = get_chain_ctrl d lane in
    some (stored writable d' (get_module lane value) (get_module lane v))
run_chain k writable d (get_module_id lane value) =
    let (v, d') = get_chain_module_id d lane in
    some (stored writable d' (get_module_id lane value) (get_module_id lane v))
run_chain k writable d (get_connection lane extif_id cid value) =
    let (v, d') = get_chain_con_status d k.garbage lane extif_id cid in
    some (
      stored writable d' (get_connection lane extif_id cid value)
        (get_connection lane extif_id cid v))
run_chain k writable d (read_soft_table ids) =
    stored_ids writable d (read_chain_soft_table d ids.lane ids.fchid) ids
run_chain k writable d (stat c) =
    let (c', d') = run_stat d c in some (stored writable d' (stat c) (stat c'))
run_chain k writable d (fault c) = some (stored_fault writable c (run_fault d k.garbage c))
run_chain k writable d reset_soft_table = some (ok, reset_chain_soft_table d, reset_soft_table)
run_chain k writable d other_command = some (err einval, d, other_command)

-- The commands that read no argument.
abbrev pub has_argument : Command → Bool
has_argument reset_soft_table = false
has_argument other_command = false
has_argument c = true

-- `xpcie_fpga_ioctl_chain`; `readable` and `writable` are the success of the two copies.
unfoldable pub ioctl_chain : Kernel → Bool → Bool → Dev → Command → Option Answer
unfolding run_chain
ioctl_chain k readable writable d c =
    if has_argument c && not readable then some (err efault, d, c) else run_chain k writable d c
