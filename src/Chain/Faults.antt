-- ===== src/Chain/Faults.antt =====
-- The faults that the chain module reports, driver/chain/libxpcie_chain.c: the functions that
-- detect, clear, mask, force and insert the five groups of them. An uninitialised `value` is the
-- argument `garbage` of the functions that read into it.
pub mod Reports
pub mod Stalls
pub mod Tables
pub mod Masks
pub mod Kept
use hardware_drivers.Prelude.{
  ℕ, ◌+◌, ◌*◌, ◌/◌, ◌%◌, ◌^◌, Option, none, some, List, [], ◌∷◌, if◌then◌else◌, ◌==◌,
}
use hardware_drivers.Prelude.Fields.{pack, field}
use hardware_drivers.Device.{Dev, chain_reg_read, chain_reg_write}
use hardware_drivers.Chain.{Kind, ingress, egress, other_kind}
use hardware_drivers.Chain.Stats.{stat_sel_session}

-- The registers of a group: what is detected, masked, forced and inserted.
pub data Bank : Type 0 where
  value mask force ins : Bank

-- The register of the external interface 0, of 1, and of no other.
abbrev pub by_extif : ℕ → ℕ → ℕ → Option ℕ
by_extif extif_id reg0 reg1 =
    if extif_id == 0 then some reg0 else if extif_id == 1 then some reg1 else none

-- A register that the request names is accessed; one that it does not name is reported in the log,
-- and a read leaves the local variable as it was.
unfoldable pub write_if : Dev → Option ℕ → ℕ → ℕ → Dev
unfolding chain_reg_write
write_if d none lane word = d
write_if d (some offset) lane word = chain_reg_write d offset lane word

unfoldable pub read_or : ℕ → Dev → Option ℕ → ℕ → ℕ × Dev
unfolding chain_reg_read
read_or garbage d none lane = (garbage, d)
read_or garbage d (some offset) lane = chain_reg_read d offset lane

-- `fpga_ioctl_chain_err_t`
pub record ChainErr : Type 0 where
  pub lane : ℕ
  pub extif_id : ℕ
  pub dir : Kind
  pub cid_fchid : ℕ
  pub header_marker : ℕ
  pub payload_len : ℕ
  pub header_len : ℕ
  pub header_chksum : ℕ
  pub header_stat : ℕ
  pub pointer_table_miss : ℕ
  pub payload_table_miss : ℕ
  pub con_table_miss : ℕ
  pub pointer_table_invalid : ℕ
  pub payload_table_invalid : ℕ
  pub con_table_invalid : ℕ

-- The word of a fault register: shift and width of each field, in the order of the code.
abbrev pub chain_err_layout : List (ℕ × ℕ)
chain_err_layout =
    (0, 1) ∷ (1, 1) ∷ (2, 1) ∷ (3, 1) ∷ (4, 8) ∷ (12, 1) ∷ (13, 1) ∷ (16, 1) ∷ (17, 1) ∷ []

abbrev pub chain_err_values : ChainErr → List ℕ
chain_err_values r =
    r.header_marker ∷ r.payload_len ∷ r.header_len ∷ r.header_chksum ∷ r.header_stat
    ∷ r.pointer_table_miss ∷ r.payload_table_miss ∷ r.pointer_table_invalid
    ∷ r.payload_table_invalid ∷ []

unfoldable pub chain_err_word : ChainErr → ℕ
unfolding pack
chain_err_word r = pack chain_err_layout (chain_err_values r) 0

unfoldable pub chain_err_store : ChainErr → ℕ → ChainErr
chain_err_store r word = record r {
  header_marker = field word 0 1;
  payload_len = field word 1 1;
  header_len = field word 2 1;
  header_chksum = field word 3 1;
  header_stat = field word 4 8;
  pointer_table_miss = field word 12 1;
  payload_table_miss = field word 13 1;
  pointer_table_invalid = field word 16 1;
  payload_table_invalid = field word 17 1;
}

abbrev pub chain_err_reg : Bank → Kind → ℕ → Option ℕ
chain_err_reg value ingress e = by_extif e 0x510 0x520
chain_err_reg mask ingress e = by_extif e 0x518 0x528
chain_err_reg force ingress e = by_extif e 0x51C 0x52C
chain_err_reg ins ingress e = by_extif e 0x600 0x604
chain_err_reg value egress e = by_extif e 0x560 0x570
chain_err_reg mask egress e = by_extif e 0x568 0x578
chain_err_reg force egress e = by_extif e 0x56C 0x57C
chain_err_reg ins egress e = by_extif e 0x608 0x60C
chain_err_reg bank other_kind e = none

-- The session of the request is selected, for both directions.
abbrev pub select_session : Dev → Kind → ℕ → ℕ → Dev
select_session d other_kind lane cid_fchid = d
select_session d kind lane cid_fchid = chain_reg_write d stat_sel_session lane cid_fchid

-- A read of a register into the fields of the request.
abbrev pub chain_err_read : Bank → Dev → ℕ → ChainErr → ChainErr × Dev
chain_err_read bank d garbage r =
    let (word, d') = read_or garbage d (chain_err_reg bank r.dir r.extif_id) r.lane in
    (chain_err_store r word, d')

unfoldable pub detect_chain_err : Dev → ℕ → ChainErr → ChainErr × Dev
unfolding chain_err_store read_or
detect_chain_err d garbage r =
    chain_err_read value (select_session d r.dir r.lane r.cid_fchid) garbage r

unfoldable pub mask_chain_err : Dev → ChainErr → Dev
unfolding chain_err_word write_if
mask_chain_err d r = write_if d (chain_err_reg mask r.dir r.extif_id) r.lane (chain_err_word r)

unfoldable pub get_mask_chain_err : Dev → ℕ → ChainErr → ChainErr × Dev
unfolding chain_err_store read_or
get_mask_chain_err d garbage r = chain_err_read mask d garbage r

unfoldable pub force_chain_err : Dev → ChainErr → Dev
unfolding chain_err_word write_if
force_chain_err d r = write_if d (chain_err_reg force r.dir r.extif_id) r.lane (chain_err_word r)

unfoldable pub get_force_chain_err : Dev → ℕ → ChainErr → ChainErr × Dev
unfolding chain_err_store read_or
get_force_chain_err d garbage r = chain_err_read force d garbage r

-- The faults that are inserted differ by direction.
abbrev pub ins_ingress_layout : List (ℕ × ℕ)
ins_ingress_layout = (0, 1) ∷ (1, 1) ∷ (2, 1) ∷ []

abbrev pub ins_ingress_values : ChainErr → List ℕ
ins_ingress_values r = r.pointer_table_invalid ∷ r.payload_table_invalid ∷ r.con_table_invalid ∷ []

unfoldable pub ins_ingress_word : ChainErr → ℕ
unfolding pack
ins_ingress_word r = pack ins_ingress_layout (ins_ingress_values r) 0

unfoldable pub ins_ingress_store : ChainErr → ℕ → ChainErr
ins_ingress_store r word = record r {
  pointer_table_invalid = field word 0 1;
  payload_table_invalid = field word 1 1;
  con_table_invalid = field word 2 1;
}

abbrev pub ins_egress_layout : List (ℕ × ℕ)
ins_egress_layout = (0, 1) ∷ (1, 1) ∷ (2, 1) ∷ (3, 1) ∷ (4, 8) ∷ (16, 1) ∷ (17, 1) ∷ (18, 1) ∷ []

abbrev pub ins_egress_values : ChainErr → List ℕ
ins_egress_values r =
    r.header_marker ∷ r.payload_len ∷ r.header_len ∷ r.header_chksum ∷ r.header_stat
    ∷ r.pointer_table_invalid ∷ r.payload_table_invalid ∷ r.con_table_invalid ∷ []

unfoldable pub ins_egress_word : ChainErr → ℕ
unfolding pack
ins_egress_word r = pack ins_egress_layout (ins_egress_values r) 0

unfoldable pub ins_egress_store : ChainErr → ℕ → ChainErr
ins_egress_store r word = record r {
  header_marker = field word 0 1;
  payload_len = field word 1 1;
  header_len = field word 2 1;
  header_chksum = field word 3 1;
  header_stat = field word 4 8;
  pointer_table_invalid = field word 16 1;
  payload_table_invalid = field word 17 1;
  con_table_invalid = field word 18 1;
}

abbrev pub ins_word : Kind → ChainErr → ℕ
ins_word ingress r = ins_ingress_word r
ins_word kind r = ins_egress_word r

abbrev pub ins_store : Kind → ChainErr → ℕ → ChainErr
ins_store ingress r word = ins_ingress_store r word
ins_store egress r word = ins_egress_store r word
ins_store other_kind r word = r

unfoldable pub ins_chain_err : Dev → ChainErr → Dev
unfolding ins_ingress_word ins_egress_word write_if
ins_chain_err d r = write_if d (chain_err_reg ins r.dir r.extif_id) r.lane (ins_word r.dir r)

unfoldable pub get_ins_chain_err : Dev → ℕ → ChainErr → ChainErr × Dev
unfolding ins_ingress_store ins_egress_store read_or
get_ins_chain_err d garbage r =
    let (word, d') = read_or garbage d (chain_err_reg ins r.dir r.extif_id) r.lane in
    (ins_store r.dir r word, d')
