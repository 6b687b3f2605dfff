-- ===== src/Libchain.antt =====
-- The chain control of the user library, lib/libfpga/src/libchain.c, over the driver: a process
-- with its opened devices (`fpga_get_device` of lib/libfpga/src/libfpgactl.c), the cards behind the
-- file descriptors, and the functions that connect and disconnect a function chain. The addresses
-- that the library hands to the driver are those of its own local variables, so the driver's copies
-- succeed.
pub mod Frame
pub mod Update
pub mod Delete
pub mod Links
pub mod Connects
pub mod Disconnects
pub mod Reverse
pub mod Queries
pub mod Soft
pub mod Wait
use hardware_drivers.Prelude.{
  ℕ, ◌%◌, ◌^◌, Bool, true, false, not, ◌&&◌, ◌||◌, Option, none, some, ltb, leb, ◌==◌,
  if◌then◌else◌, update,
}
use hardware_drivers.Device.{Dev, Ret, ok, err, update_timeout, no_chain_found}
use hardware_drivers.Chain.{FpgaId}
use hardware_drivers.Chain.Ioctl.{
  Kernel, Command, update_table_ingr, update_table_egr, delete_table_ingr, delete_table_egr, Answer,
  ioctl_chain,
}

-- The error numbers of the library, negated in its results.
pub data LibErr : Type 0 where
  invalid_argument failure_ioctl table_update_timeout func_chain_id_mismatch : LibErr

pub data LibRet : Type 0 where
  success : LibRet
  failed : LibErr → LibRet

-- The fields of `fpga_device_t` that the functions use: its file, and `map.chain.num`.
pub record FpgaDevice : Type 0 where
  pub fd : ℕ
  pub chain_num : ℕ

-- The table `devices`, where none has no name; the card that a file descriptor is open on; and the
-- driver's state of each card.
pub record Host : Type 0 where
  pub kernel : Kernel
  pub devices : ℕ → Option FpgaDevice
  pub card_of : ℕ → ℕ
  pub cards : ℕ → Dev

abbrev pub fpga_max_devices : ℕ
fpga_max_devices = 16

abbrev pub fpga_get_device : Host → ℕ → Option FpgaDevice
fpga_get_device h dev_id = if ltb dev_id fpga_max_devices then h.devices dev_id else none

-- The card behind a device, and a process whose call has changed it.
abbrev pub card : Host → FpgaDevice → Dev
card h dev = h.cards (h.card_of dev.fd)

unfoldable pub with_card : Host → FpgaDevice → Dev → Host
with_card h dev d = record h { cards = update h.cards (h.card_of dev.fd) d }

abbrev pub returned : Host → FpgaDevice → Option Answer → Option (Ret × Host × Command)
returned h dev none = none
returned h dev (some (r, d, c)) = some (r, with_card h dev d, c)

-- `fpgautil_ioctl`: a result other than 0 is -1 with the error in `errno`. It is nothing where the
-- driver indexes its table out of bounds.
unfoldable pub fpgautil_ioctl : Host → FpgaDevice → Command → Option (Ret × Host × Command)
fpgautil_ioctl h dev c = returned h dev (ioctl_chain h.kernel true true (card h dev) c)

-- `enum FUNCTION_CHAIN_DIR`
pub data ChainDir : Type 0 where
  egress_dir ingress_dir : ChainDir

abbrev pub update_cmd : ChainDir → FpgaId → Command
update_cmd egress_dir id = update_table_egr id
update_cmd ingress_dir id = update_table_ingr id

abbrev pub delete_cmd : ChainDir → FpgaId → Command
delete_cmd egress_dir id = delete_table_egr id
delete_cmd ingress_dir id = delete_table_ingr id

-- The arguments that `__fpga_chain_connect` hands on to `__fpga_set_id_info`.
pub record Request : Type 0 where
  pub lane : ℕ
  pub fchid : ℕ
  pub extif_id : ℕ
  pub cid : ℕ
  pub active_flag : ℕ
  pub direct_flag : ℕ
  pub virtual_flag : ℕ
  pub blocking_flag : ℕ

-- `__fpga_set_id_info`
unfoldable pub set_id_info : Request → ℕ → FpgaId
set_id_info q enable_flag = record {
  lane = q.lane;
  extif_id = q.extif_id;
  cid = q.cid % 2 ^ 16;
  fchid = q.fchid % 2 ^ 16;
  enable_flag = enable_flag;
  active_flag = q.active_flag;
  direct_flag = q.direct_flag;
  virtual_flag = q.virtual_flag;
  blocking_flag = q.blocking_flag;
}

-- The lower limits of CID and FUNCTION_CHAIN_ID are 0, and the arguments have no sign.
abbrev pub is_cid_arg : ℕ → Bool
is_cid_arg cid = leb cid 511

abbrev pub is_fchid_arg : ℕ → Bool
is_fchid_arg fchid = leb fchid 511

abbrev pub is_connect_arg : FpgaDevice → Request → Bool
is_connect_arg dev q =
    (q.extif_id == 0 || q.extif_id == 1)
    && is_cid_arg q.cid
    && is_fchid_arg q.fchid
    && ltb q.lane dev.chain_num
    && leb q.active_flag 1
    && leb q.direct_flag 1
    && leb q.virtual_flag 1
    && leb q.blocking_flag 1

abbrev pub connect_ret : Ret → LibRet
connect_ret ok = success
connect_ret (err update_timeout) = failed table_update_timeout
connect_ret (err _) = failed failure_ioctl

abbrev pub answered : (Ret → LibRet) → Option (Ret × Host × Command) → Option (LibRet × Host)
answered f none = none
answered f (some (r, h, c)) = some (f r, h)

unfoldable pub connect_on : Host → Option FpgaDevice → Request → ChainDir → Option (LibRet × Host)
connect_on h none q dir = some (failed invalid_argument, h)
connect_on h (some dev) q dir =
    if is_connect_arg dev q
    then answered connect_ret (fpgautil_ioctl h dev (update_cmd dir (set_id_info q 1)))
    else some (failed invalid_argument, h)

-- `__fpga_chain_connect`
abbrev pub chain_connect_dir : Host → ℕ → Request → ChainDir → Option (LibRet × Host)
chain_connect_dir h dev_id q dir = connect_on h (fpga_get_device h dev_id) q dir

abbrev pub ingress_request : (lane fchid extif_id cid active_flag direct_flag : ℕ) → Request
ingress_request lane fchid extif_id cid active_flag direct_flag = record {
  lane = lane;
  fchid = fchid;
  extif_id = extif_id;
  cid = cid;
  active_flag = active_flag;
  direct_flag = direct_flag;
  virtual_flag = 0;
  blocking_flag = 0;
}

abbrev pub egress_request :
    (lane fchid extif_id cid active_flag virtual_flag blocking_flag : ℕ) → Request
egress_request lane fchid extif_id cid active_flag virtual_flag blocking_flag = record {
  lane = lane;
  fchid = fchid;
  extif_id = extif_id;
  cid = cid;
  active_flag = active_flag;
  direct_flag = 0;
  virtual_flag = virtual_flag;
  blocking_flag = blocking_flag;
}

-- `fpga_chain_connect_ingress` and `fpga_chain_connect_egress`, whose own test of the device is
-- repeated by the function they call.
abbrev pub chain_connect_ingress :
    Host → (dev_id lane fchid extif_id cid active_flag direct_flag : ℕ) → Option (LibRet × Host)
chain_connect_ingress h dev_id lane fchid extif_id cid active_flag direct_flag =
    chain_connect_dir h dev_id (ingress_request lane fchid extif_id cid active_flag direct_flag)
      ingress_dir

abbrev pub chain_connect_egress :
    Host
    → (dev_id lane fchid extif_id cid active_flag virtual_flag blocking_flag : ℕ)
    → Option (LibRet × Host)
chain_connect_egress h dev_id lane fchid extif_id cid active_flag virtual_flag blocking_flag =
    chain_connect_dir h dev_id
      (egress_request lane fchid extif_id cid active_flag virtual_flag blocking_flag) egress_dir

abbrev pub disconnect_ret : Ret → LibRet
disconnect_ret ok = success
disconnect_ret (err update_timeout) = failed table_update_timeout
disconnect_ret (err no_chain_found) = failed func_chain_id_mismatch
disconnect_ret (err _) = failed failure_ioctl

-- The request of a deletion names its lane and its function channel.
abbrev pub place_request : (lane fchid : ℕ) → Request
place_request lane fchid = record {
  lane = lane;
  fchid = fchid;
  extif_id = 0;
  cid = 0;
  active_flag = 0;
  direct_flag = 0;
  virtual_flag = 0;
  blocking_flag = 0;
}

abbrev pub is_place_arg : FpgaDevice → (lane fchid : ℕ) → Bool
is_place_arg dev lane fchid = is_fchid_arg fchid && ltb lane dev.chain_num

unfoldable pub disconnect_on :
    Host → Option FpgaDevice → (lane fchid : ℕ) → ChainDir → Option (LibRet × Host)
disconnect_on h none lane fchid dir = some (failed invalid_argument, h)
disconnect_on h (some dev) lane fchid dir =
    if is_place_arg dev lane fchid
    then answered disconnect_ret
        (fpgautil_ioctl h dev (delete_cmd dir (set_id_info (place_request lane fchid) 0)))
    else some (failed invalid_argument, h)

-- `__fpga_chain_disconnect`, which `fpga_chain_disconnect_ingress` and
-- `fpga_chain_disconnect_egress` call with their direction.
abbrev pub chain_disconnect_dir : Host → (dev_id lane fchid : ℕ) → ChainDir → Option (LibRet × Host)
chain_disconnect_dir h dev_id lane fchid dir =
    disconnect_on h (fpga_get_device h dev_id) lane fchid dir

-- The result of the first call ends the function unless it is 0.
abbrev pub then_egress :
    Option (LibRet × Host) → (Host → Option (LibRet × Host)) → Option (LibRet × Host)
then_egress none next = none
then_egress (some (success, h)) next = next h
then_egress (some (failed e, h)) next = some (failed e, h)

-- `fpga_chain_disconnect`
unfoldable pub chain_disconnect : Host → (dev_id lane fchid : ℕ) → Option (LibRet × Host)
chain_disconnect h dev_id lane fchid =
    then_egress (chain_disconnect_dir h dev_id lane fchid ingress_dir)
      (λ h'. chain_disconnect_dir h' dev_id lane fchid egress_dir)

-- The ingress is deleted again when the egress fails; the result of this deletion is dropped.
abbrev pub kept_error : LibErr → Option (LibRet × Host) → Option (LibRet × Host)
kept_error e none = none
kept_error e (some (r, h)) = some (failed e, h)

abbrev pub rollback :
    Option (LibRet × Host) → (Host → Option (LibRet × Host)) → Option (LibRet × Host)
rollback none undo = none
rollback (some (success, h)) undo = some (success, h)
rollback (some (failed e, h)) undo = kept_error e (undo h)

-- What `fpga_chain_connect` is called with.
pub record ConnectArgs : Type 0 where
  pub lane : ℕ
  pub fchid : ℕ
  pub ingress_extif_id : ℕ
  pub ingress_cid : ℕ
  pub egress_extif_id : ℕ
  pub egress_cid : ℕ
  pub ingress_active_flag : ℕ
  pub egress_active_flag : ℕ
  pub direct_flag : ℕ
  pub egress_virtual_flag : ℕ
  pub egress_blocking_flag : ℕ

abbrev pub ingress_of : ConnectArgs → Request
ingress_of a =
    ingress_request a.lane a.fchid a.ingress_extif_id a.ingress_cid a.ingress_active_flag
      a.direct_flag

abbrev pub egress_of : ConnectArgs → Request
egress_of a =
    egress_request a.lane a.fchid a.egress_extif_id a.egress_cid a.egress_active_flag
      a.egress_virtual_flag a.egress_blocking_flag

unfoldable pub connect_checked : Host → (dev_id : ℕ) → ConnectArgs → Option (LibRet × Host)
connect_checked h dev_id a =
    then_egress (chain_connect_dir h dev_id (ingress_of a) ingress_dir) (λ h1.
      rollback (chain_connect_dir h1 dev_id (egress_of a) egress_dir)
        (λ h2. chain_disconnect_dir h2 dev_id a.lane a.fchid ingress_dir))

abbrev pub is_some : Option FpgaDevice → Bool
is_some none = false
is_some (some dev) = true

-- `fpga_chain_connect`
unfoldable pub chain_connect : Host → (dev_id : ℕ) → ConnectArgs → Option (LibRet × Host)
chain_connect h dev_id a =
    if is_some (fpga_get_device h dev_id) && is_cid_arg a.ingress_cid && is_cid_arg a.egress_cid
    then connect_checked h dev_id a
    else some (failed invalid_argument, h)
