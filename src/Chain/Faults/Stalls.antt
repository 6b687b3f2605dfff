-- ===== src/Chain/Faults/Stalls.antt =====
-- The stalls of the stream interfaces of the chain module, driver/chain/libxpcie_chain.c, the
-- inserted commands and the status of a connection.
use hardware_drivers.Prelude.{ℕ, ◌*◌, ◌/◌, ◌%◌, ◌^◌, Option, none, some, List, [], ◌∷◌, bit_or}
use hardware_drivers.Prelude.Fields.{pack, field}
use hardware_drivers.Device.{Dev, chain_reg_write}
use hardware_drivers.Chain.Stats.{stat_sel_session}
use hardware_drivers.Chain.Faults.{Bank, value, mask, force, ins, by_extif, write_if, read_or}

-- `fpga_ioctl_chain_err_stif_t`
pub record ChainErrStif : Type 0 where
  pub lane : ℕ
  pub ingress_req : ℕ
  pub ingress_resp : ℕ
  pub ingress_data : ℕ
  pub egress_req : ℕ
  pub egress_resp : ℕ
  pub egress_data : ℕ
  pub extif_event : ℕ
  pub extif_command : ℕ

-- The events and commands of the interface 1 have their bits above those of the interface 0.
abbrev pub stif_layout : List (ℕ × ℕ)
stif_layout =
    (0, 1) ∷ (1, 1) ∷ (2, 1) ∷ (3, 1) ∷ (4, 1) ∷ (5, 1) ∷ (6, 1) ∷ (7, 1) ∷ (8, 1) ∷ (9, 1) ∷ []

-- `(v & 0x02) << 7` puts the bit 1 of `v` at the bit 8.
abbrev pub stif_values : ChainErrStif → List ℕ
stif_values r =
    r.ingress_req
    ∷ r.ingress_resp
    ∷ r.ingress_data
    ∷ r.egress_req
    ∷ r.egress_resp
    ∷ r.egress_data
    ∷ r.extif_event
    ∷ r.extif_command
    ∷ r.extif_event / 2
    ∷ r.extif_command / 2
    ∷ []

unfoldable pub stif_word : ChainErrStif → ℕ
unfolding pack
stif_word r = pack stif_layout (stif_values r) 0

unfoldable pub stif_store : ChainErrStif → ℕ → ChainErrStif
stif_store r word = record r {
  ingress_req = field word 0 1;
  ingress_resp = field word 1 1;
  ingress_data = field word 2 1;
  egress_req = field word 3 1;
  egress_resp = field word 4 1;
  egress_data = field word 5 1;
  extif_event = bit_or (field word 6 1) (field word 8 1 * 2);
  extif_command = bit_or (field word 7 1) (field word 9 1 * 2);
}

-- There is no register for inserted stalls.
abbrev pub stif_reg : Bank → Option ℕ
stif_reg value = some 0x5C0
stif_reg mask = some 0x5C8
stif_reg force = some 0x5CC
stif_reg ins = none

abbrev pub stif_read : Bank → Dev → ChainErrStif → ChainErrStif × Dev
stif_read bank d r = let (word, d') = read_or 0 d (stif_reg bank) r.lane in (stif_store r word, d')

abbrev pub stif_write : Bank → Dev → ChainErrStif → Dev
stif_write bank d r = write_if d (stif_reg bank) r.lane (stif_word r)

unfoldable pub detect_chain_err_stif : Dev → ChainErrStif → ChainErrStif × Dev
unfolding stif_store read_or
detect_chain_err_stif d r = stif_read value d r

unfoldable pub mask_chain_err_stif : Dev → ChainErrStif → Dev
unfolding stif_word write_if
mask_chain_err_stif d r = stif_write mask d r

unfoldable pub get_mask_chain_err_stif : Dev → ChainErrStif → ChainErrStif × Dev
unfolding stif_store read_or
get_mask_chain_err_stif d r = stif_read mask d r

unfoldable pub force_chain_err_stif : Dev → ChainErrStif → Dev
unfolding stif_word write_if
force_chain_err_stif d r = stif_write force d r

unfoldable pub get_force_chain_err_stif : Dev → ChainErrStif → ChainErrStif × Dev
unfolding stif_store read_or
get_force_chain_err_stif d r = stif_read force d r

-- `fpga_ioctl_chain_err_cmdfault_t`
pub record ChainErrCmdfault : Type 0 where
  pub lane : ℕ
  pub extif_id : ℕ
  pub enable : ℕ
  pub cid : ℕ

abbrev pub cmdfault_layout : List (ℕ × ℕ)
cmdfault_layout = (0, 1) ∷ (16, 16) ∷ []

abbrev pub cmdfault_values : ChainErrCmdfault → List ℕ
cmdfault_values r = r.enable ∷ r.cid ∷ []

unfoldable pub cmdfault_word : ChainErrCmdfault → ℕ
unfolding pack
cmdfault_word r = pack cmdfault_layout (cmdfault_values r) 0

unfoldable pub cmdfault_store : ChainErrCmdfault → ℕ → ChainErrCmdfault
cmdfault_store r word = record r { enable = field word 0 1; cid = field word 16 16 }

abbrev pub cmdfault_reg : ℕ → Option ℕ
cmdfault_reg e = by_extif e 0x618 0x61C

unfoldable pub ins_chain_err_cmdfault : Dev → ChainErrCmdfault → Dev
unfolding cmdfault_word write_if
ins_chain_err_cmdfault d r = write_if d (cmdfault_reg r.extif_id) r.lane (cmdfault_word r)

unfoldable pub get_ins_chain_err_cmdfault : Dev → ℕ → ChainErrCmdfault → ChainErrCmdfault × Dev
unfolding cmdfault_store read_or
get_ins_chain_err_cmdfault d garbage r =
    let (word, d') = read_or garbage d (cmdfault_reg r.extif_id) r.lane in
    (cmdfault_store r word, d')

-- The status of a connection: one bit of the register of its interface, once its session is
-- selected.
unfoldable pub get_chain_con_status : Dev → ℕ → ℕ → ℕ → ℕ → ℕ × Dev
unfolding read_or chain_reg_write
get_chain_con_status d garbage lane extif_id cid =
    let d1 = chain_reg_write d stat_sel_session lane (cid % 2 ^ 9) in
    let (word, d2) = read_or garbage d1 (by_extif extif_id 0x410 0x414) lane in (word % 2, d2)
