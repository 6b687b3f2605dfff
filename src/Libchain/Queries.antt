-- ===== src/Libchain/Queries.antt =====
-- The functions of lib/libfpga/src/libchain.c that start and stop a lane, set the offsets in DDR
-- memory, and read the tables, the offsets and the registers of a lane. Whether the addresses for
-- the results are not NULL is an argument, and so is what an argument structure of the driver holds
-- in the fields that the function leaves unset.
use hardware_drivers.Prelude.{
  ℕ, ◌%◌, ◌^◌, Bool, not, ◌&&◌, Option, none, some, ltb, leb, if◌then◌else◌,
}
use hardware_drivers.Device.{Ret, ok, err}
use hardware_drivers.Chain.{FpgaId}
use hardware_drivers.Chain.Stats.{ChainDdr}
use hardware_drivers.Chain.Ioctl.{
  Command, read_table_ingr, read_table_egr, start_module, stop_module, set_ddr, get_ddr, get_module,
  get_module_id, get_connection, read_soft_table, ChainIds,
}
use hardware_drivers.Libchain.{
  invalid_argument, failure_ioctl, LibRet, success, failed, FpgaDevice, Host, fpga_get_device,
  fpgautil_ioctl, is_cid_arg, is_fchid_arg, disconnect_ret,
}

-- What a function returns, the process after it and what it stored for its caller.
abbrev pub Result {ℓ} : Type ℓ → Type ℓ
Result A = Option (LibRet × Host × Option A)

abbrev pub refuse {ℓ} : {A : Type ℓ} → Host → Result A
refuse h = some (failed invalid_argument, h, none)

-- Every error of the driver is -FAILURE_IOCTL.
abbrev pub plain_ret : Ret → LibRet
plain_ret ok = success
plain_ret (err _) = failed failure_ioctl

-- What is taken from the argument of a successful command.
abbrev pub finish {ℓ} :
    {A : Type ℓ} → (Ret → LibRet) → (Command → Option A) → Option (Ret × Host × Command) → Result A
finish f out none = none
finish f out (some (ok, h, c)) = some (f ok, h, out c)
finish f out (some (err e, h, c)) = some (f (err e), h, none)

-- The test of the device and of the arguments that every function begins with.
abbrev pub guarded {ℓ} :
    {A : Type ℓ}
    → Host
    → Option FpgaDevice
    → (FpgaDevice → Bool)
    → (FpgaDevice → Result A)
    → Result A
guarded h none test body = refuse h
guarded h (some dev) test body = if test dev then body dev else refuse h

abbrev pub nothing_out : Command → Option (Unit {0})
nothing_out c = some tt

-- `fpga_chain_start`
unfoldable pub chain_start : Host → (dev_id lane : ℕ) → Result (Unit {0})
unfolding fpgautil_ioctl
chain_start h dev_id lane =
    guarded h (fpga_get_device h dev_id) (λ dev. ltb lane dev.chain_num)
      (λ dev. finish plain_ret nothing_out (fpgautil_ioctl h dev (start_module lane)))

-- `fpga_chain_stop`
unfoldable pub chain_stop : Host → (dev_id lane : ℕ) → Result (Unit {0})
unfolding fpgautil_ioctl
chain_stop h dev_id lane =
    guarded h (fpga_get_device h dev_id) (λ dev. ltb lane dev.chain_num)
      (λ dev. finish plain_ret nothing_out (fpgautil_ioctl h dev (stop_module lane)))

-- `fpga_chain_set_ddr`
unfoldable pub chain_set_ddr : Host → (dev_id lane extif_id : ℕ) → Result (Unit {0})
unfolding fpgautil_ioctl
chain_set_ddr h dev_id lane extif_id =
    guarded h (fpga_get_device h dev_id) (λ dev. ltb lane dev.chain_num && leb extif_id 1)
      (λ dev. finish plain_ret nothing_out (fpgautil_ioctl h dev (set_ddr lane (extif_id % 2 ^ 8))))

abbrev ddr_out : Command → Option ChainDdr
ddr_out (get_ddr lane extif_id ddr) = some ddr
ddr_out c = none

-- `fpga_chain_get_ddr`
unfoldable pub chain_get_ddr :
    Host → (chain_ddr : Bool) → (unset : ChainDdr) → (dev_id lane extif_id : ℕ) → Result ChainDdr
unfolding fpgautil_ioctl
chain_get_ddr h chain_ddr unset dev_id lane extif_id =
    guarded h (fpga_get_device h dev_id)
      (λ dev. chain_ddr && ltb lane dev.chain_num && leb extif_id 1)
      (λ dev.
        finish plain_ret ddr_out (fpgautil_ioctl h dev (get_ddr lane (extif_id % 2 ^ 8) unset)))

-- The three flags and the function channel of an ingress entry.
pub record IngressEntry : Type 0 where
  pub enable_flag : ℕ
  pub active_flag : ℕ
  pub direct_flag : ℕ
  pub fchid : ℕ

abbrev ingress_out : Command → Option IngressEntry
ingress_out (read_table_ingr id) = some (record {
  enable_flag = id.enable_flag;
  active_flag = id.active_flag;
  direct_flag = id.direct_flag;
  fchid = id.fchid % 2 ^ 16;
})
ingress_out c = none

-- `fpga_chain_read_table_ingress`, whose errors are told apart as those of a deletion.
unfoldable pub chain_read_table_ingress :
    Host → (outs : Bool) → (unset : FpgaId) → (dev_id lane extif_id cid : ℕ) → Result IngressEntry
unfolding fpgautil_ioctl
chain_read_table_ingress h outs unset dev_id lane extif_id cid =
    guarded h (fpga_get_device h dev_id)
      (λ dev. outs && ltb lane dev.chain_num && is_cid_arg cid && leb extif_id 1)
      (λ dev. finish disconnect_ret ingress_out (
        fpgautil_ioctl h dev (
          read_table_ingr (record unset { lane = lane; extif_id = extif_id; cid = cid % 2 ^ 16 }))))

-- The flags and the identifiers of an egress entry.
pub record EgressEntry : Type 0 where
  pub enable_flag : ℕ
  pub active_flag : ℕ
  pub virtual_flag : ℕ
  pub blocking_flag : ℕ
  pub extif_id : ℕ
  pub cid : ℕ

abbrev egress_out : Command → Option EgressEntry
egress_out (read_table_egr id) = some (record {
  enable_flag = id.enable_flag;
  active_flag = id.active_flag;
  virtual_flag = id.virtual_flag;
  blocking_flag = id.blocking_flag;
  extif_id = id.extif_id % 2 ^ 16;
  cid = id.cid % 2 ^ 16;
})
egress_out c = none

-- `fpga_chain_read_table_egress`
unfoldable pub chain_read_table_egress :
    Host → (outs : Bool) → (unset : FpgaId) → (dev_id lane fchid : ℕ) → Result EgressEntry
unfolding fpgautil_ioctl
chain_read_table_egress h outs unset dev_id lane fchid =
    guarded h (fpga_get_device h dev_id)
      (λ dev. outs && ltb lane dev.chain_num && is_fchid_arg fchid)
      (λ dev. finish disconnect_ret egress_out (
        fpgautil_ioctl h dev
          (read_table_egr (record unset { lane = lane; fchid = fchid % 2 ^ 16 }))))

-- Which of the four addresses of `fpga_chain_read_soft_table` are not NULL.
pub record Wanted : Type 0 where
  pub ingress_extif_id : Bool
  pub ingress_cid : Bool
  pub egress_extif_id : Bool
  pub egress_cid : Bool

-- The addresses come in pairs, and there is one.
abbrev pub is_wanted : Wanted → Bool
is_wanted w =
    not (w.ingress_extif_id && not w.ingress_cid)
    && not (not w.ingress_extif_id && w.ingress_cid)
    && not (w.egress_extif_id && not w.egress_cid)
    && not (not w.egress_extif_id && w.egress_cid)
    && not
        (not w.ingress_extif_id && not w.ingress_cid && not w.egress_extif_id && not w.egress_cid)

-- Only the identifiers whose address was given are stored.
pub record SoftEntry : Type 0 where
  pub ingress_extif_id : Option ℕ
  pub ingress_cid : Option ℕ
  pub egress_extif_id : Option ℕ
  pub egress_cid : Option ℕ

abbrev only : Bool → ℕ → Option ℕ
only b n = if b then some n else none

abbrev pub soft_out : Wanted → Command → Option SoftEntry
soft_out w (read_soft_table ids) = some (record {
  ingress_extif_id = only w.ingress_extif_id ids.ingress_extif_id;
  ingress_cid = only w.ingress_cid ids.ingress_cid;
  egress_extif_id = only w.egress_extif_id ids.egress_extif_id;
  egress_cid = only w.egress_cid ids.egress_cid;
})
soft_out w c = none

-- The argument after the `memset`.
abbrev pub asked_ids : (lane fchid : ℕ) → ChainIds
asked_ids lane fchid = record {
  lane = lane;
  fchid = fchid;
  ingress_extif_id = 0;
  ingress_cid = 0;
  egress_extif_id = 0;
  egress_cid = 0;
}

-- `fpga_chain_read_soft_table`
unfoldable pub chain_read_soft_table : Host → Wanted → (dev_id lane fchid : ℕ) → Result SoftEntry
chain_read_soft_table h w dev_id lane fchid =
    guarded h (fpga_get_device h dev_id)
      (λ dev. ltb lane dev.chain_num && is_fchid_arg fchid && is_wanted w)
      (λ dev.
        finish plain_ret (soft_out w)
          (fpgautil_ioctl h dev (read_soft_table (asked_ids lane fchid))))

abbrev value_out : Command → Option ℕ
value_out (get_module lane value) = some value
value_out (get_module_id lane value) = some value
value_out (get_connection lane extif_id cid value) = some value
value_out c = none

-- `fpga_chain_get_control`
unfoldable pub chain_get_control : Host → (control : Bool) → (unset dev_id lane : ℕ) → Result ℕ
unfolding fpgautil_ioctl
chain_get_control h control unset dev_id lane =
    guarded h (fpga_get_device h dev_id) (λ dev. control && ltb lane dev.chain_num)
      (λ dev. finish plain_ret value_out (fpgautil_ioctl h dev (get_module lane unset)))

-- `fpga_chain_get_module_id`
unfoldable pub chain_get_module_id : Host → (module_id : Bool) → (unset dev_id lane : ℕ) → Result ℕ
unfolding fpgautil_ioctl
chain_get_module_id h module_id unset dev_id lane =
    guarded h (fpga_get_device h dev_id) (λ dev. module_id && ltb lane dev.chain_num)
      (λ dev. finish plain_ret value_out (fpgautil_ioctl h dev (get_module_id lane unset)))

-- `fpga_chain_get_con_status`
unfoldable pub chain_get_con_status :
    Host → (status : Bool) → (unset dev_id lane extif_id cid : ℕ) → Result ℕ
unfolding fpgautil_ioctl
chain_get_con_status h status unset dev_id lane extif_id cid =
    guarded h (fpga_get_device h dev_id)
      (λ dev. status && ltb lane dev.chain_num && leb extif_id 1 && is_cid_arg cid)
      (λ dev.
        finish plain_ret value_out (fpgautil_ioctl h dev (get_connection lane extif_id cid unset)))
