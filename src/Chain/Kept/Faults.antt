-- ===== src/Chain/Kept/Faults.antt =====
-- What the ioctl commands of the chain module leave of the driver's state.
use hardware_drivers.Prelude.{ℕ, ◌≡◌, refl, ◌∙◌, ap, Option, none, some}
use hardware_drivers.Device.{Dev, chain_reg_read, chain_reg_write}
use hardware_drivers.Chain.{Kind, ingress, egress, other_kind}
use hardware_drivers.Chain.Faults.{
  detect_chain_err, mask_chain_err, get_mask_chain_err, force_chain_err, get_force_chain_err,
  ins_chain_err, get_ins_chain_err, read_or, write_if, select_session,
}
use hardware_drivers.Chain.Faults.Tables.{
  detect_chain_err_table, mask_chain_err_table, get_mask_chain_err_table, force_chain_err_table,
  get_force_chain_err_table, select_table,
}
use hardware_drivers.Chain.Faults.Reports.{
  detect_chain_err_prot, clear_chain_err_prot, mask_chain_err_prot, get_mask_chain_err_prot,
  force_chain_err_prot, get_force_chain_err_prot, ins_chain_err_prot, get_ins_chain_err_prot,
  detect_chain_err_evt, clear_chain_err_evt, mask_chain_err_evt, get_mask_chain_err_evt,
  force_chain_err_evt, get_force_chain_err_evt,
}
use hardware_drivers.Chain.Faults.Stalls.{
  detect_chain_err_stif, mask_chain_err_stif, get_mask_chain_err_stif, force_chain_err_stif,
  get_force_chain_err_stif, ins_chain_err_cmdfault, get_ins_chain_err_cmdfault,
}
use hardware_drivers.Chain.Ioctl.Faults.{
  FaultCommand, run_fault, get_err, set_err_mask, get_err_mask, set_err_force, get_err_force,
  err_ins, err_get_ins, get_err_tbl, set_err_tbl_mask, get_err_tbl_mask, set_err_tbl_force,
  get_err_tbl_force, get_err_prot, set_err_prot_clr, set_err_prot_mask, get_err_prot_mask,
  set_err_prot_force, get_err_prot_force, err_prot_ins, err_prot_get_ins, get_err_evt,
  set_err_evt_clr, set_err_evt_mask, get_err_evt_mask, set_err_evt_force, get_err_evt_force,
  get_err_stif, set_err_stif_mask, get_err_stif_mask, set_err_stif_force, get_err_stif_force,
  err_cmdfault_ins, err_cmdfault_get_ins,
}

-- Two states that differ in their accesses to the card only.
abbrev pub OnBus : Dev → Dev → Type 0
OnBus d d' = record d { bus = d'.bus } ≡ d'

pub OnBus-trans : (d : Dev) {e f : Dev} → OnBus d e → OnBus e f → OnBus d f
OnBus-trans d {e} {f} p q = ap (λ (x : Dev). record x { bus = f.bus }) p ∙ q

pub chain_reg_read-OnBus : (d : Dev) (offset lane : ℕ) → OnBus d (chain_reg_read d offset lane).1
unfolding chain_reg_read
chain_reg_read-OnBus d offset lane = refl

pub chain_reg_write-OnBus :
    (d : Dev) (offset lane value : ℕ) → OnBus d (chain_reg_write d offset lane value)
unfolding chain_reg_write
chain_reg_write-OnBus d offset lane value = refl

pub write_if-OnBus : (d : Dev) (reg : Option ℕ) (lane word : ℕ) → OnBus d (write_if d reg lane word)
unfolding write_if
write_if-OnBus d none lane word = refl
write_if-OnBus d (some offset) lane word = chain_reg_write-OnBus d offset lane word

pub read_or-OnBus :
    (garbage : ℕ) (d : Dev) (reg : Option ℕ) (lane : ℕ) → OnBus d (read_or garbage d reg lane).1
unfolding read_or
read_or-OnBus garbage d none lane = refl
read_or-OnBus garbage d (some offset) lane = chain_reg_read-OnBus d offset lane

select_session-OnBus :
    (d : Dev) (dir : Kind) (lane cid_fchid : ℕ) → OnBus d (select_session d dir lane cid_fchid)
select_session-OnBus d ingress lane cid_fchid = chain_reg_write-OnBus d _ lane cid_fchid
select_session-OnBus d egress lane cid_fchid = chain_reg_write-OnBus d _ lane cid_fchid
select_session-OnBus d other_kind lane cid_fchid = refl

select_table-OnBus :
    (d : Dev) (dir : Kind) (lane cid_fchid : ℕ) → OnBus d (select_table d dir lane cid_fchid)
select_table-OnBus d ingress lane cid_fchid = chain_reg_write-OnBus d _ lane cid_fchid
select_table-OnBus d egress lane cid_fchid = chain_reg_write-OnBus d _ lane cid_fchid
select_table-OnBus d other_kind lane cid_fchid = refl

pub run_fault-OnBus : (d : Dev) (garbage : ℕ) (c : FaultCommand) → OnBus d (run_fault d garbage c).1
unfolding run_fault detect_chain_err mask_chain_err get_mask_chain_err force_chain_err
    get_force_chain_err ins_chain_err get_ins_chain_err detect_chain_err_table mask_chain_err_table
    get_mask_chain_err_table force_chain_err_table get_force_chain_err_table detect_chain_err_prot
    clear_chain_err_prot mask_chain_err_prot get_mask_chain_err_prot force_chain_err_prot
    get_force_chain_err_prot ins_chain_err_prot get_ins_chain_err_prot detect_chain_err_evt
    clear_chain_err_evt mask_chain_err_evt get_mask_chain_err_evt force_chain_err_evt
    get_force_chain_err_evt detect_chain_err_stif mask_chain_err_stif get_mask_chain_err_stif
    force_chain_err_stif get_force_chain_err_stif ins_chain_err_cmdfault get_ins_chain_err_cmdfault
run_fault-OnBus d garbage (get_err r) =
    OnBus-trans d (select_session-OnBus d r.dir r.lane r.cid_fchid)
      (read_or-OnBus garbage _ _ r.lane)
run_fault-OnBus d garbage (set_err_mask r) = write_if-OnBus d _ r.lane _
run_fault-OnBus d garbage (get_err_mask r) = read_or-OnBus garbage d _ r.lane
run_fault-OnBus d garbage (set_err_force r) = write_if-OnBus d _ r.lane _
run_fault-OnBus d garbage (get_err_force r) = read_or-OnBus garbage d _ r.lane
run_fault-OnBus d garbage (err_ins r) = write_if-OnBus d _ r.lane _
run_fault-OnBus d garbage (err_get_ins r) = read_or-OnBus garbage d _ r.lane
run_fault-OnBus d garbage (get_err_tbl r) =
    OnBus-trans d (select_table-OnBus d r.dir r.lane r.cid_fchid) (read_or-OnBus garbage _ _ r.lane)
run_fault-OnBus d garbage (set_err_tbl_mask r) = write_if-OnBus d _ r.lane _
run_fault-OnBus d garbage (get_err_tbl_mask r) = read_or-OnBus garbage d _ r.lane
run_fault-OnBus d garbage (set_err_tbl_force r) = write_if-OnBus d _ r.lane _
run_fault-OnBus d garbage (get_err_tbl_force r) = read_or-OnBus garbage d _ r.lane
run_fault-OnBus d garbage (get_err_prot r) = read_or-OnBus garbage d _ r.lane
run_fault-OnBus d garbage (set_err_prot_clr r) = write_if-OnBus d _ r.lane _
run_fault-OnBus d garbage (set_err_prot_mask r) = write_if-OnBus d _ r.lane _
run_fault-OnBus d garbage (get_err_prot_mask r) = read_or-OnBus garbage d _ r.lane
run_fault-OnBus d garbage (set_err_prot_force r) = write_if-OnBus d _ r.lane _
run_fault-OnBus d garbage (get_err_prot_force r) = read_or-OnBus garbage d _ r.lane
run_fault-OnBus d garbage (err_prot_ins r) = write_if-OnBus d _ r.lane _
run_fault-OnBus d garbage (err_prot_get_ins r) = read_or-OnBus garbage d _ r.lane
run_fault-OnBus d garbage (get_err_evt r) = read_or-OnBus garbage d _ r.lane
run_fault-OnBus d garbage (set_err_evt_clr r) = write_if-OnBus d _ r.lane _
run_fault-OnBus d garbage (set_err_evt_mask r) = write_if-OnBus d _ r.lane _
run_fault-OnBus d garbage (get_err_evt_mask r) = read_or-OnBus garbage d _ r.lane
run_fault-OnBus d garbage (set_err_evt_force r) = write_if-OnBus d _ r.lane _
run_fault-OnBus d garbage (get_err_evt_force r) = read_or-OnBus garbage d _ r.lane
run_fault-OnBus d garbage (get_err_stif r) = refl
run_fault-OnBus d garbage (set_err_stif_mask r) = refl
run_fault-OnBus d garbage (get_err_stif_mask r) = refl
run_fault-OnBus d garbage (set_err_stif_force r) = refl
run_fault-OnBus d garbage (get_err_stif_force r) = refl
run_fault-OnBus d garbage (err_cmdfault_ins r) = write_if-OnBus d _ r.lane _
run_fault-OnBus d garbage (err_cmdfault_get_ins r) = read_or-OnBus garbage d _ r.lane
