-- ===== src/Chain/Faults/Reports.antt =====
-- The faults of the protocol, of the events and of the stream interfaces of the chain module,
-- driver/chain/libxpcie_chain.c, inserted commands and the status of a connection.
use hardware_drivers.Prelude.{ℕ, Option, none, some, List, [], ◌∷◌}
use hardware_drivers.Prelude.Fields.{pack, field}
use hardware_drivers.Device.{Dev}
use hardware_drivers.Chain.{Kind, ingress, egress, other_kind}
use hardware_drivers.Chain.Faults.{Bank, value, mask, force, ins, by_extif, write_if, read_or}

-- `fpga_ioctl_chain_err_prot_t`
pub record ChainErrProt : Type 0 where
  pub lane : ℕ
  pub dir : Kind
  pub prot_ch : ℕ
  pub prot_len : ℕ
  pub prot_sof : ℕ
  pub prot_eof : ℕ
  pub prot_reqresp : ℕ
  pub prot_datanum : ℕ
  pub prot_req_outstanding : ℕ
  pub prot_resp_outstanding : ℕ
  pub prot_max_datanum : ℕ
  pub prot_reqlen : ℕ
  pub prot_reqresplen : ℕ

abbrev pub prot_layout : List (ℕ × ℕ)
prot_layout =
    (0, 1)
    ∷ (1, 1)
    ∷ (2, 1)
    ∷ (3, 1)
    ∷ (4, 1)
    ∷ (5, 1)
    ∷ (6, 1)
    ∷ (7, 1)
    ∷ (8, 1)
    ∷ (12, 1)
    ∷ (13, 1)
    ∷ []

abbrev pub prot_values : ChainErrProt → List ℕ
prot_values r =
    r.prot_ch ∷ r.prot_len ∷ r.prot_sof ∷ r.prot_eof ∷ r.prot_reqresp ∷ r.prot_datanum
    ∷ r.prot_req_outstanding ∷ r.prot_resp_outstanding ∷ r.prot_max_datanum ∷ r.prot_reqlen
    ∷ r.prot_reqresplen ∷ []

unfoldable pub prot_word : ChainErrProt → ℕ
unfolding pack
prot_word r = pack prot_layout (prot_values r) 0

unfoldable pub prot_store : ChainErrProt → ℕ → ChainErrProt
prot_store r word = record r {
  prot_ch = field word 0 1;
  prot_len = field word 1 1;
  prot_sof = field word 2 1;
  prot_eof = field word 3 1;
  prot_reqresp = field word 4 1;
  prot_datanum = field word 5 1;
  prot_req_outstanding = field word 6 1;
  prot_resp_outstanding = field word 7 1;
  prot_max_datanum = field word 8 1;
  prot_reqlen = field word 12 1;
  prot_reqresplen = field word 13 1;
}

abbrev pub prot_reg : Bank → Kind → Option ℕ
prot_reg value ingress = some 0x580
prot_reg mask ingress = some 0x588
prot_reg force ingress = some 0x58C
prot_reg ins ingress = some 0x610
prot_reg value egress = some 0x590
prot_reg mask egress = some 0x598
prot_reg force egress = some 0x59C
prot_reg ins egress = some 0x614
prot_reg bank other_kind = none

abbrev pub prot_read : Bank → Dev → ℕ → ChainErrProt → ChainErrProt × Dev
prot_read bank d garbage r =
    let (word, d') = read_or garbage d (prot_reg bank r.dir) r.lane in (prot_store r word, d')

abbrev pub prot_write : Bank → Dev → ChainErrProt → Dev
prot_write bank d r = write_if d (prot_reg bank r.dir) r.lane (prot_word r)

unfoldable pub detect_chain_err_prot : Dev → ℕ → ChainErrProt → ChainErrProt × Dev
unfolding prot_store read_or
detect_chain_err_prot d garbage r = prot_read value d garbage r

unfoldable pub clear_chain_err_prot : Dev → ChainErrProt → Dev
unfolding prot_word write_if
clear_chain_err_prot d r = prot_write value d r

unfoldable pub mask_chain_err_prot : Dev → ChainErrProt → Dev
unfolding prot_word write_if
mask_chain_err_prot d r = prot_write mask d r

unfoldable pub get_mask_chain_err_prot : Dev → ℕ → ChainErrProt → ChainErrProt × Dev
unfolding prot_store read_or
get_mask_chain_err_prot d garbage r = prot_read mask d garbage r

unfoldable pub force_chain_err_prot : Dev → ChainErrProt → Dev
unfolding prot_word write_if
force_chain_err_prot d r = prot_write force d r

unfoldable pub get_force_chain_err_prot : Dev → ℕ → ChainErrProt → ChainErrProt × Dev
unfolding prot_store read_or
get_force_chain_err_prot d garbage r = prot_read force d garbage r

unfoldable pub ins_chain_err_prot : Dev → ChainErrProt → Dev
unfolding prot_word write_if
ins_chain_err_prot d r = prot_write ins d r

unfoldable pub get_ins_chain_err_prot : Dev → ℕ → ChainErrProt → ChainErrProt × Dev
unfolding prot_store read_or
get_ins_chain_err_prot d garbage r = prot_read ins d garbage r

-- `fpga_ioctl_chain_err_evt_t`
pub record ChainErrEvt : Type 0 where
  pub lane : ℕ
  pub extif_id : ℕ
  pub established : ℕ
  pub close_wait : ℕ
  pub erased : ℕ
  pub syn_timeout : ℕ
  pub syn_ack_timeout : ℕ
  pub timeout : ℕ
  pub recv_data : ℕ
  pub send_data : ℕ
  pub recv_urgent_data : ℕ
  pub recv_rst : ℕ

abbrev pub evt_layout : List (ℕ × ℕ)
evt_layout =
    (0, 1) ∷ (1, 1) ∷ (2, 1) ∷ (3, 1) ∷ (4, 1) ∷ (5, 1) ∷ (6, 1) ∷ (7, 1) ∷ (8, 1) ∷ (9, 1) ∷ []

abbrev pub evt_values : ChainErrEvt → List ℕ
evt_values r =
    r.established ∷ r.close_wait ∷ r.erased ∷ r.syn_timeout ∷ r.syn_ack_timeout ∷ r.timeout
    ∷ r.recv_data ∷ r.send_data ∷ r.recv_urgent_data ∷ r.recv_rst ∷ []

unfoldable pub evt_word : ChainErrEvt → ℕ
unfolding pack
evt_word r = pack evt_layout (evt_values r) 0

unfoldable pub evt_store : ChainErrEvt → ℕ → ChainErrEvt
evt_store r word = record r {
  established = field word 0 1;
  close_wait = field word 1 1;
  erased = field word 2 1;
  syn_timeout = field word 3 1;
  syn_ack_timeout = field word 4 1;
  timeout = field word 5 1;
  recv_data = field word 6 1;
  send_data = field word 7 1;
  recv_urgent_data = field word 8 1;
  recv_rst = field word 9 1;
}

-- There is no register for inserted events.
abbrev pub evt_reg : Bank → ℕ → Option ℕ
evt_reg value e = by_extif e 0x5A0 0x5B0
evt_reg mask e = by_extif e 0x5A8 0x5B8
evt_reg force e = by_extif e 0x5AC 0x5BC
evt_reg ins e = none

abbrev pub evt_read : Bank → Dev → ℕ → ChainErrEvt → ChainErrEvt × Dev
evt_read bank d garbage r =
    let (word, d') = read_or garbage d (evt_reg bank r.extif_id) r.lane in (evt_store r word, d')

abbrev pub evt_write : Bank → Dev → ChainErrEvt → Dev
evt_write bank d r = write_if d (evt_reg bank r.extif_id) r.lane (evt_word r)

unfoldable pub detect_chain_err_evt : Dev → ℕ → ChainErrEvt → ChainErrEvt × Dev
unfolding evt_store read_or
detect_chain_err_evt d garbage r = evt_read value d garbage r

unfoldable pub clear_chain_err_evt : Dev → ChainErrEvt → Dev
unfolding evt_word write_if
clear_chain_err_evt d r = evt_write value d r

unfoldable pub mask_chain_err_evt : Dev → ChainErrEvt → Dev
unfolding evt_word write_if
mask_chain_err_evt d r = evt_write mask d r

unfoldable pub get_mask_chain_err_evt : Dev → ℕ → ChainErrEvt → ChainErrEvt × Dev
unfolding evt_store read_or
get_mask_chain_err_evt d garbage r = evt_read mask d garbage r

unfoldable pub force_chain_err_evt : Dev → ChainErrEvt → Dev
unfolding evt_word write_if
force_chain_err_evt d r = evt_write force d r

unfoldable pub get_force_chain_err_evt : Dev → ℕ → ChainErrEvt → ChainErrEvt × Dev
unfolding evt_store read_or
get_force_chain_err_evt d garbage r = evt_read force d garbage r
