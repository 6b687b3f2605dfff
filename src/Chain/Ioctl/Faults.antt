-- ===== src/Chain/Ioctl/Faults.antt =====
-- The ioctl commands for the faults that the chain module reports, of `xpcie_fpga_ioctl_chain` in
-- driver/chain/xpcie_device_fops_chain.c.
use hardware_drivers.Prelude.{ℕ, Option, none, some}
use hardware_drivers.Device.{Dev}
use hardware_drivers.Chain.Faults.{
  ChainErr, detect_chain_err, mask_chain_err, get_mask_chain_err, force_chain_err,
  get_force_chain_err, ins_chain_err, get_ins_chain_err,
}
use hardware_drivers.Chain.Faults.Tables.{
  ChainErrTable, detect_chain_err_table, mask_chain_err_table, get_mask_chain_err_table,
  force_chain_err_table, get_force_chain_err_table,
}
use hardware_drivers.Chain.Faults.Reports.{
  ChainErrProt, detect_chain_err_prot, clear_chain_err_prot, mask_chain_err_prot,
  get_mask_chain_err_prot, force_chain_err_prot, get_force_chain_err_prot, ins_chain_err_prot,
  get_ins_chain_err_prot, ChainErrEvt, detect_chain_err_evt, clear_chain_err_evt,
  mask_chain_err_evt, get_mask_chain_err_evt, force_chain_err_evt, get_force_chain_err_evt,
}
use hardware_drivers.Chain.Faults.Stalls.{
  ChainErrStif, detect_chain_err_stif, mask_chain_err_stif, get_mask_chain_err_stif,
  force_chain_err_stif, get_force_chain_err_stif, ChainErrCmdfault, ins_chain_err_cmdfault,
  get_ins_chain_err_cmdfault,
}

-- A command with what the user's memory holds at the address `arg`.
pub data FaultCommand : Type 0 where
  get_err set_err_mask get_err_mask set_err_force get_err_force err_ins err_get_ins :
      ChainErr → FaultCommand
  get_err_tbl set_err_tbl_mask get_err_tbl_mask set_err_tbl_force get_err_tbl_force :
      ChainErrTable → FaultCommand
  get_err_prot set_err_prot_clr set_err_prot_mask get_err_prot_mask set_err_prot_force
        get_err_prot_force err_prot_ins err_prot_get_ins :
      ChainErrProt → FaultCommand
  get_err_evt set_err_evt_clr set_err_evt_mask get_err_evt_mask set_err_evt_force
        get_err_evt_force :
      ChainErrEvt → FaultCommand
  get_err_stif set_err_stif_mask get_err_stif_mask set_err_stif_force get_err_stif_force :
      ChainErrStif → FaultCommand
  err_cmdfault_ins err_cmdfault_get_ins : ChainErrCmdfault → FaultCommand

abbrev pub reply {ℓ} : {A : Type ℓ} → (A → FaultCommand) → A × Dev → Option FaultCommand × Dev
reply c (r, d) = (some (c r), d)

-- What the call of the driver's function leaves: the request that is copied to the user's memory,
-- if the case copies it, and the driver. `garbage` is what an unset local variable holds.
unfoldable pub run_fault : Dev → ℕ → FaultCommand → Option FaultCommand × Dev
run_fault d garbage (get_err r) = reply get_err (detect_chain_err d garbage r)
run_fault d garbage (set_err_mask r) = (none, mask_chain_err d r)
run_fault d garbage (get_err_mask r) = reply get_err_mask (get_mask_chain_err d garbage r)
run_fault d garbage (set_err_force r) = (none, force_chain_err d r)
run_fault d garbage (get_err_force r) = reply get_err_force (get_force_chain_err d garbage r)
run_fault d garbage (err_ins r) = (none, ins_chain_err d r)
run_fault d garbage (err_get_ins r) = reply err_get_ins (get_ins_chain_err d garbage r)
run_fault d garbage (get_err_tbl r) = reply get_err_tbl (detect_chain_err_table d garbage r)
run_fault d garbage (set_err_tbl_mask r) = (none, mask_chain_err_table d r)
run_fault d garbage (get_err_tbl_mask r) =
    reply get_err_tbl_mask (get_mask_chain_err_table d garbage r)
run_fault d garbage (set_err_tbl_force r) = (none, force_chain_err_table d r)
run_fault d garbage (get_err_tbl_force r) =
    reply get_err_tbl_force (get_force_chain_err_table d garbage r)
run_fault d garbage (get_err_prot r) = reply get_err_prot (detect_chain_err_prot d garbage r)
run_fault d garbage (set_err_prot_clr r) = (none, clear_chain_err_prot d r)
run_fault d garbage (set_err_prot_mask r) = (none, mask_chain_err_prot d r)
run_fault d garbage (get_err_prot_mask r) =
    reply get_err_prot_mask (get_mask_chain_err_prot d garbage r)
run_fault d garbage (set_err_prot_force r) = (none, force_chain_err_prot d r)
run_fault d garbage (get_err_prot_force r) =
    reply get_err_prot_force (get_force_chain_err_prot d garbage r)
run_fault d garbage (err_prot_ins r) = (none, ins_chain_err_prot d r)
run_fault d garbage (err_prot_get_ins r) =
    reply err_prot_get_ins (get_ins_chain_err_prot d garbage r)
run_fault d garbage (get_err_evt r) = reply get_err_evt (detect_chain_err_evt d garbage r)
run_fault d garbage (set_err_evt_clr r) = (none, clear_chain_err_evt d r)
run_fault d garbage (set_err_evt_mask r) = (none, mask_chain_err_evt d r)
run_fault d garbage (get_err_evt_mask r) =
    reply get_err_evt_mask (get_mask_chain_err_evt d garbage r)
run_fault d garbage (set_err_evt_force r) = (none, force_chain_err_evt d r)
run_fault d garbage (get_err_evt_force r) =
    reply get_err_evt_force (get_force_chain_err_evt d garbage r)
run_fault d garbage (get_err_stif r) = reply get_err_stif (detect_chain_err_stif d r)
run_fault d garbage (set_err_stif_mask r) = (none, mask_chain_err_stif d r)
run_fault d garbage (get_err_stif_mask r) = reply get_err_stif_mask (get_mask_chain_err_stif d r)
run_fault d garbage (set_err_stif_force r) = (none, force_chain_err_stif d r)
run_fault d garbage (get_err_stif_force r) = reply get_err_stif_force (get_force_chain_err_stif d r)
run_fault d garbage (err_cmdfault_ins r) = (none, ins_chain_err_cmdfault d r)
run_fault d garbage (err_cmdfault_get_ins r) =
    reply err_cmdfault_get_ins (get_ins_chain_err_cmdfault d garbage r)
