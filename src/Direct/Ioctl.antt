-- ===== src/Direct/Ioctl.antt =====
-- The ioctl commands of the direct transfer module, `xpcie_fpga_ioctl_direct` of
-- driver/direct/xpcie_device_fops_direct.c.
use hardware_drivers.Prelude.{ℕ, Bool, true, false, Option, none, some}
use hardware_drivers.Device.{Dev, Ret, ok, err, efault, einval}
use hardware_drivers.Direct.{
  DirType, start_direct_module, stop_direct_module, get_direct_ctrl, get_direct_module_id,
  get_direct_bytes, get_direct_frames, check_direct_err,
}
use hardware_drivers.Direct.Faults.{
  DirectErrProt, detect_direct_err_prot, clear_direct_err_prot, mask_direct_err_prot,
  get_mask_direct_err_prot, force_direct_err_prot, get_force_direct_err_prot, ins_direct_err_prot,
  get_ins_direct_err_prot, DirectErrStif, detect_direct_err_stif, mask_direct_err_stif,
  get_mask_direct_err_stif, force_direct_err_stif, get_force_direct_err_stif,
}

-- A command with what the user's memory holds at the address `arg`; `other_command` is every number
-- that the switch has no case for.
pub data DirectCommand : Type 0 where
  start_module stop_module : (lane : ℕ) → DirectCommand
  get_bytes get_frames : (lane : ℕ) → DirType → (fchid num : ℕ) → DirectCommand
  get_err_all : (lane err_all : ℕ) → DirectCommand
  get_err_prot set_err_prot_clr set_err_prot_mask get_err_prot_mask set_err_prot_force
        get_err_prot_force err_prot_ins err_prot_get_ins :
      DirectErrProt → DirectCommand
  get_err_stif set_err_stif_mask get_err_stif_mask set_err_stif_force get_err_stif_force :
      DirectErrStif → DirectCommand
  get_module get_module_id : (lane value : ℕ) → DirectCommand
  other_command : DirectCommand

abbrev pub reply {ℓ} : {A : Type ℓ} → (A → DirectCommand) → A × Dev → Option DirectCommand × Dev
reply c (r, d) = (some (c r), d)

abbrev pub kept_or : ℕ → Option ℕ × Dev → ℕ × Dev
kept_or old (none, d) = (old, d)
kept_or old (some v, d) = (v, d)

-- What the call of the driver's function leaves: the request that is copied to the user's memory,
-- if the case copies it, and the driver. `garbage` is what an unset local variable holds.
unfoldable pub run_direct : Dev → ℕ → DirectCommand → Option DirectCommand × Dev
run_direct d garbage (start_module lane) = (none, start_direct_module d lane)
run_direct d garbage (stop_module lane) = (none, stop_direct_module d lane)
run_direct d garbage (get_bytes lane reg_id fchid old) =
    reply (get_bytes lane reg_id fchid) (kept_or old (get_direct_bytes d reg_id lane fchid))
run_direct d garbage (get_frames lane reg_id fchid old) =
    reply (get_frames lane reg_id fchid) (get_direct_frames d garbage reg_id lane fchid)
run_direct d garbage (get_err_all lane old) = reply (get_err_all lane) (check_direct_err d lane)
run_direct d garbage (get_err_prot r) = reply get_err_prot (detect_direct_err_prot d r)
run_direct d garbage (set_err_prot_clr r) = (none, clear_direct_err_prot d r)
run_direct d garbage (set_err_prot_mask r) = (none, mask_direct_err_prot d r)
run_direct d garbage (get_err_prot_mask r) = reply get_err_prot_mask (get_mask_direct_err_prot d r)
run_direct d garbage (set_err_prot_force r) = (none, force_direct_err_prot d r)
run_direct d garbage (get_err_prot_force r) =
    reply get_err_prot_force (get_force_direct_err_prot d r)
run_direct d garbage (err_prot_ins r) = (none, ins_direct_err_prot d r)
run_direct d garbage (err_prot_get_ins r) = reply err_prot_get_ins (get_ins_direct_err_prot d r)
run_direct d garbage (get_err_stif r) = reply get_err_stif (detect_direct_err_stif d r)
run_direct d garbage (set_err_stif_mask r) = (none, mask_direct_err_stif d r)
run_direct d garbage (get_err_stif_mask r) = reply get_err_stif_mask (get_mask_direct_err_stif d r)
run_direct d garbage (set_err_stif_force r) = (none, force_direct_err_stif d r)
run_direct d garbage (get_err_stif_force r) =
    reply get_err_stif_force (get_force_direct_err_stif d r)
run_direct d garbage (get_module lane old) = reply (get_module lane) (get_direct_ctrl d lane)
run_direct d garbage (get_module_id lane old) =
    reply (get_module_id lane) (get_direct_module_id d lane)
run_direct d garbage other_command = (none, d)

-- The copy to the user's memory, where the case has one.
abbrev pub copied : Bool → DirectCommand → Option DirectCommand × Dev → Ret × Dev × DirectCommand
copied writable c (none, d) = (ok, d, c)
copied true c (some c', d) = (ok, d, c')
copied false c (some c', d) = (err efault, d, c)

-- `xpcie_fpga_ioctl_direct`; `readable` and `writable` are the success of the two copies.
unfoldable pub ioctl_direct :
    (readable writable : Bool) → Dev → (garbage : ℕ) → DirectCommand → Ret × Dev × DirectCommand
ioctl_direct readable writable d garbage other_command = (err einval, d, other_command)
ioctl_direct true writable d garbage c = copied writable c (run_direct d garbage c)
ioctl_direct false writable d garbage c = (err efault, d, c)
