-- ===== src/Direct/Faults.antt =====
-- The faults of the direct transfer module, driver/direct/libxpcie_direct.c: the functions that
-- detect, clear, mask, force and insert them.
use hardware_drivers.Prelude.{ℕ, Option, none, some, List, [], ◌∷◌}
use hardware_drivers.Prelude.Fields.{pack, field}
use hardware_drivers.Device.{Dev, direct_reg_read, direct_reg_write}
use hardware_drivers.Direct.{DirType, ingr_rcv, ingr_snd, egr_rcv, egr_snd, other_dir_type}
use hardware_drivers.Chain.Faults.{Bank, value, mask, force, ins}

-- A register that the request names is written; one that it does not name is reported in the log.
unfoldable pub direct_write_if : Dev → Option ℕ → ℕ → ℕ → Dev
unfolding direct_reg_write
direct_write_if d none lane word = d
direct_write_if d (some offset) lane word = direct_reg_write d offset lane word

-- `fpga_ioctl_direct_err_prot_t`
pub record DirectErrProt : Type 0 where
  pub lane : ℕ
  pub dir_type : DirType
  pub prot_ch : ℕ
  pub prot_len : ℕ
  pub prot_sof : ℕ
  pub prot_eof : ℕ
  pub prot_reqresp : ℕ
  pub prot_datanum : ℕ
  pub prot_req_outstanding : ℕ
  pub prot_resp_outstanding : ℕ
  pub prot_max_datanum : ℕ
  pub prot_reqlen : ℕ
  pub prot_reqresplen : ℕ

abbrev pub direct_prot_layout : List (ℕ × ℕ)
direct_prot_layout =
    (0, 1)
    ∷ (1, 1)
    ∷ (2, 1)
    ∷ (3, 1)
    ∷ (4, 1)
    ∷ (5, 1)
    ∷ (6, 1)
    ∷ (7, 1)
    ∷ (8, 1)
    ∷ (12, 1)
    ∷ (13, 1)
    ∷ []

abbrev pub direct_prot_values : DirectErrProt → List ℕ
direct_prot_values r =
    r.prot_ch ∷ r.prot_len ∷ r.prot_sof ∷ r.prot_eof ∷ r.prot_reqresp ∷ r.prot_datanum
    ∷ r.prot_req_outstanding ∷ r.prot_resp_outstanding ∷ r.prot_max_datanum ∷ r.prot_reqlen
    ∷ r.prot_reqresplen ∷ []

unfoldable pub direct_prot_word : DirectErrProt → ℕ
unfolding pack
direct_prot_word r = pack direct_prot_layout (direct_prot_values r) 0

unfoldable pub direct_prot_store : DirectErrProt → ℕ → DirectErrProt
direct_prot_store r word = record r {
  prot_ch = field word 0 1;
  prot_len = field word 1 1;
  prot_sof = field word 2 1;
  prot_eof = field word 3 1;
  prot_reqresp = field word 4 1;
  prot_datanum = field word 5 1;
  prot_req_outstanding = field word 6 1;
  prot_resp_outstanding = field word 7 1;
  prot_max_datanum = field word 8 1;
  prot_reqlen = field word 12 1;
  prot_reqresplen = field word 13 1;
}

abbrev pub direct_prot_reg : Bank → DirType → Option ℕ
direct_prot_reg value ingr_rcv = some 0x110
direct_prot_reg mask ingr_rcv = some 0x118
direct_prot_reg force ingr_rcv = some 0x11C
direct_prot_reg ins ingr_rcv = some 0x180
direct_prot_reg value ingr_snd = some 0x120
direct_prot_reg mask ingr_snd = some 0x128
direct_prot_reg force ingr_snd = some 0x12C
direct_prot_reg ins ingr_snd = some 0x184
direct_prot_reg value egr_rcv = some 0x130
direct_prot_reg mask egr_rcv = some 0x138
direct_prot_reg force egr_rcv = some 0x13C
direct_prot_reg ins egr_rcv = some 0x188
direct_prot_reg value egr_snd = some 0x140
direct_prot_reg mask egr_snd = some 0x148
direct_prot_reg force egr_snd = some 0x14C
direct_prot_reg ins egr_snd = some 0x18C
direct_prot_reg bank other_dir_type = none

-- A request that names no register is left as it is.
unfoldable pub direct_prot_found : Dev → Option ℕ → DirectErrProt → DirectErrProt × Dev
unfolding direct_reg_read direct_prot_store
direct_prot_found d none r = (r, d)
direct_prot_found d (some offset) r =
    let (word, d') = direct_reg_read d offset r.lane in (direct_prot_store r word, d')

abbrev pub direct_prot_write : Bank → Dev → DirectErrProt → Dev
direct_prot_write bank d r =
    direct_write_if d (direct_prot_reg bank r.dir_type) r.lane (direct_prot_word r)

abbrev pub direct_prot_read : Bank → Dev → DirectErrProt → DirectErrProt × Dev
direct_prot_read bank d r = direct_prot_found d (direct_prot_reg bank r.dir_type) r

unfoldable pub detect_direct_err_prot : Dev → DirectErrProt → DirectErrProt × Dev
unfolding direct_prot_found
detect_direct_err_prot d r = direct_prot_read value d r

unfoldable pub clear_direct_err_prot : Dev → DirectErrProt → Dev
unfolding direct_prot_word direct_write_if
clear_direct_err_prot d r = direct_prot_write value d r

unfoldable pub mask_direct_err_prot : Dev → DirectErrProt → Dev
unfolding direct_prot_word direct_write_if
mask_direct_err_prot d r = direct_prot_write mask d r

unfoldable pub get_mask_direct_err_prot : Dev → DirectErrProt → DirectErrProt × Dev
unfolding direct_prot_found
get_mask_direct_err_prot d r = direct_prot_read mask d r

unfoldable pub force_direct_err_prot : Dev → DirectErrProt → Dev
unfolding direct_prot_word direct_write_if
force_direct_err_prot d r = direct_prot_write force d r

unfoldable pub get_force_direct_err_prot : Dev → DirectErrProt → DirectErrProt × Dev
unfolding direct_prot_found
get_force_direct_err_prot d r = direct_prot_read force d r

unfoldable pub ins_direct_err_prot : Dev → DirectErrProt → Dev
unfolding direct_prot_word direct_write_if
ins_direct_err_prot d r = direct_prot_write ins d r

unfoldable pub get_ins_direct_err_prot : Dev → DirectErrProt → DirectErrProt × Dev
unfolding direct_prot_found
get_ins_direct_err_prot d r = direct_prot_read ins d r

-- `fpga_ioctl_direct_err_stif_t`
pub record DirectErrStif : Type 0 where
  pub lane : ℕ
  pub ingress_rcv_req : ℕ
  pub ingress_rcv_resp : ℕ
  pub ingress_rcv_data : ℕ
  pub ingress_snd_req : ℕ
  pub ingress_snd_resp : ℕ
  pub ingress_snd_data : ℕ
  pub egress_rcv_req : ℕ
  pub egress_rcv_resp : ℕ
  pub egress_rcv_data : ℕ
  pub egress_snd_req : ℕ
  pub egress_snd_resp : ℕ
  pub egress_snd_data : ℕ

abbrev pub direct_stif_layout : List (ℕ × ℕ)
direct_stif_layout =
    (0, 1)
    ∷ (1, 1)
    ∷ (2, 1)
    ∷ (3, 1)
    ∷ (4, 1)
    ∷ (5, 1)
    ∷ (6, 1)
    ∷ (7, 1)
    ∷ (8, 1)
    ∷ (9, 1)
    ∷ (10, 1)
    ∷ (11, 1)
    ∷ []

abbrev pub direct_stif_values : DirectErrStif → List ℕ
direct_stif_values r =
    r.ingress_rcv_req ∷ r.ingress_rcv_resp ∷ r.ingress_rcv_data ∷ r.ingress_snd_req
    ∷ r.ingress_snd_resp ∷ r.ingress_snd_data ∷ r.egress_rcv_req ∷ r.egress_rcv_resp
    ∷ r.egress_rcv_data ∷ r.egress_snd_req ∷ r.egress_snd_resp ∷ r.egress_snd_data ∷ []

unfoldable pub direct_stif_word : DirectErrStif → ℕ
unfolding pack
direct_stif_word r = pack direct_stif_layout (direct_stif_values r) 0

unfoldable pub direct_stif_store : DirectErrStif → ℕ → DirectErrStif
direct_stif_store r word = record r {
  ingress_rcv_req = field word 0 1;
  ingress_rcv_resp = field word 1 1;
  ingress_rcv_data = field word 2 1;
  ingress_snd_req = field word 3 1;
  ingress_snd_resp = field word 4 1;
  ingress_snd_data = field word 5 1;
  egress_rcv_req = field word 6 1;
  egress_rcv_resp = field word 7 1;
  egress_rcv_data = field word 8 1;
  egress_snd_req = field word 9 1;
  egress_snd_resp = field word 10 1;
  egress_snd_data = field word 11 1;
}

-- There is no register for inserted stalls.
abbrev pub direct_stif_reg : Bank → Option ℕ
direct_stif_reg value = some 0x150
direct_stif_reg mask = some 0x158
direct_stif_reg force = some 0x15C
direct_stif_reg ins = none

-- A request without a register is left as it is.
unfoldable pub direct_stif_found : Dev → Option ℕ → DirectErrStif → DirectErrStif × Dev
unfolding direct_reg_read direct_stif_store
direct_stif_found d none r = (r, d)
direct_stif_found d (some offset) r =
    let (word, d') = direct_reg_read d offset r.lane in (direct_stif_store r word, d')

abbrev pub direct_stif_write : Bank → Dev → DirectErrStif → Dev
direct_stif_write bank d r = direct_write_if d (direct_stif_reg bank) r.lane (direct_stif_word r)

abbrev pub direct_stif_read : Bank → Dev → DirectErrStif → DirectErrStif × Dev
direct_stif_read bank d r = direct_stif_found d (direct_stif_reg bank) r

unfoldable pub detect_direct_err_stif : Dev → DirectErrStif → DirectErrStif × Dev
unfolding direct_stif_found
detect_direct_err_stif d r = direct_stif_read value d r

unfoldable pub mask_direct_err_stif : Dev → DirectErrStif → Dev
unfolding direct_stif_word direct_write_if
mask_direct_err_stif d r = direct_stif_write mask d r

unfoldable pub get_mask_direct_err_stif : Dev → DirectErrStif → DirectErrStif × Dev
unfolding direct_stif_found
get_mask_direct_err_stif d r = direct_stif_read mask d r

unfoldable pub force_direct_err_stif : Dev → DirectErrStif → Dev
unfolding direct_stif_word direct_write_if
force_direct_err_stif d r = direct_stif_write force d r

unfoldable pub get_force_direct_err_stif : Dev → DirectErrStif → DirectErrStif × Dev
unfolding direct_stif_found
get_force_direct_err_stif d r = direct_stif_read force d r
