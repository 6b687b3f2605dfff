-- ===== src/Chain/Faults/Tables.antt =====
-- The faults of the connection tables of the chain module, driver/chain/libxpcie_chain.c.
use hardware_drivers.Prelude.{ℕ, Option, none, some, List, [], ◌∷◌}
use hardware_drivers.Prelude.Fields.{pack, field}
use hardware_drivers.Device.{Dev, chain_reg_write}
use hardware_drivers.Chain.{Kind, ingress, egress, other_kind}
use hardware_drivers.Chain.Stats.{stat_sel_session, stat_sel_channel}
use hardware_drivers.Chain.Faults.{Bank, value, mask, force, by_extif, write_if, read_or}

-- `fpga_ioctl_chain_err_table_t`
pub record ChainErrTable : Type 0 where
  pub lane : ℕ
  pub extif_id : ℕ
  pub dir : Kind
  pub cid_fchid : ℕ
  pub con_table_miss : ℕ
  pub con_table_invalid : ℕ

abbrev pub table_layout : List (ℕ × ℕ)
table_layout = (0, 1) ∷ (16, 1) ∷ []

abbrev pub table_values : ChainErrTable → List ℕ
table_values r = r.con_table_miss ∷ r.con_table_invalid ∷ []

unfoldable pub table_word : ChainErrTable → ℕ
unfolding pack
table_word r = pack table_layout (table_values r) 0

unfoldable pub table_store : ChainErrTable → ℕ → ChainErrTable
table_store r word = record r {
  con_table_miss = field word 0 1;
  con_table_invalid = field word 16 1;
}

abbrev pub table_reg : Bank → Kind → ℕ → Option ℕ
table_reg value ingress e = by_extif e 0x530 0x540
table_reg mask ingress e = by_extif e 0x538 0x548
table_reg force ingress e = by_extif e 0x53C 0x54C
table_reg value egress e = some 0x550
table_reg mask egress e = some 0x558
table_reg force egress e = some 0x55C
table_reg bank kind e = none

abbrev pub select_table : Dev → Kind → ℕ → ℕ → Dev
select_table d ingress lane cid_fchid = chain_reg_write d stat_sel_session lane cid_fchid
select_table d egress lane cid_fchid = chain_reg_write d stat_sel_channel lane cid_fchid
select_table d other_kind lane cid_fchid = d

abbrev pub table_read : Bank → Dev → ℕ → ChainErrTable → ChainErrTable × Dev
table_read bank d garbage r =
    let (word, d') = read_or garbage d (table_reg bank r.dir r.extif_id) r.lane in
    (table_store r word, d')

unfoldable pub detect_chain_err_table : Dev → ℕ → ChainErrTable → ChainErrTable × Dev
unfolding table_store read_or
detect_chain_err_table d garbage r =
    table_read value (select_table d r.dir r.lane r.cid_fchid) garbage r

unfoldable pub mask_chain_err_table : Dev → ChainErrTable → Dev
unfolding table_word write_if
mask_chain_err_table d r = write_if d (table_reg mask r.dir r.extif_id) r.lane (table_word r)

unfoldable pub get_mask_chain_err_table : Dev → ℕ → ChainErrTable → ChainErrTable × Dev
unfolding table_store read_or
get_mask_chain_err_table d garbage r = table_read mask d garbage r

unfoldable pub force_chain_err_table : Dev → ChainErrTable → Dev
unfolding table_word write_if
force_chain_err_table d r = write_if d (table_reg force r.dir r.extif_id) r.lane (table_word r)

unfoldable pub get_force_chain_err_table : Dev → ℕ → ChainErrTable → ChainErrTable × Dev
unfolding table_store read_or
get_force_chain_err_table d garbage r = table_read force d garbage r
