-- ===== src/Chain.antt =====
-- The function chain table, driver/chain/libxpcie_chain.c: its registers, the software table in
-- `fch_dev_table`, and the functions that update, delete and read an entry, and that start and stop
-- a lane. `__monitor` and `__mwait` only wait; the register is read after each.
pub mod Word
pub mod Read
pub mod Stats
pub mod Table
pub mod Deletion
pub mod Writes
pub mod Faults
pub mod Ddr
pub mod Ioctl
pub mod Kept
use hardware_drivers.Prelude.{
  ℕ, zero, suc, ◌+◌, ◌*◌, ◌/◌, ◌%◌, ◌^◌, ◌-◌, Bool, true, false, not, ◌&&◌, ◌||◌, Option, none,
  some, ltb, leb, ◌==◌, if◌then◌else◌, update, bit_or,
}
use hardware_drivers.Prelude.Fields.{field}
use hardware_drivers.Prelude.Int.{ℤ, pos, negsuc, eqb_ℤ}
use hardware_drivers.Device.{
  kernel_lane_max, Dev, ExtifCid, Ret, ok, err, einval, update_timeout, no_chain_found,
  chain_reg_read, chain_reg_write,
}

-- FPGA_CID_KIND_INGRESS and FPGA_CID_KIND_EGRESS; `other_kind` is every number without a name.
pub data Kind : Type 0 where
  ingress egress other_kind : Kind

-- The second index of a table entry.
abbrev pub kind_index : Kind → ℕ
kind_index ingress = 0
kind_index egress = 1
kind_index other_kind = 2

-- `fpga_id_t`
pub record FpgaId : Type 0 where
  pub lane : ℕ
  pub extif_id : ℕ
  pub cid : ℕ
  pub fchid : ℕ
  pub enable_flag : ℕ
  pub active_flag : ℕ
  pub direct_flag : ℕ
  pub virtual_flag : ℕ
  pub blocking_flag : ℕ

abbrev pub chain_control : ℕ
chain_control = 0x0

abbrev pub update_req : Kind → ℕ
update_req ingress = 0x200
update_req _ = 0x220

abbrev pub update_resp : Kind → ℕ
update_resp ingress = 0x204
update_resp _ = 0x224

abbrev pub forward_session : Kind → ℕ
forward_session ingress = 0x208
forward_session _ = 0x22C

abbrev pub forward_channel : Kind → ℕ
forward_channel ingress = 0x20C
forward_channel _ = 0x228

abbrev pub polling_max : ℕ
polling_max = 100

abbrev pub function_chain_max : ℕ
function_chain_max = 512

-- The table has entries for 4 lanes, 512 function channels and 2 kinds; the code tests none of
-- these bounds, and an access outside of them is nothing here.
abbrev pub is_entry : ℕ → ℕ → Kind → Bool
is_entry lane fchid kind =
    ltb lane kernel_lane_max && ltb fchid function_chain_max && ltb (kind_index kind) 2

abbrev pub entry_at : Dev → ℕ → ℕ → Kind → ExtifCid
entry_at d lane fchid kind = d.fch_dev_table lane fchid (kind_index kind)

unfoldable pub set_entry : Dev → ℕ → ℕ → Kind → ExtifCid → Dev
set_entry d lane fchid kind e = record d {
  fch_dev_table = update d.fch_dev_table lane (
      update (d.fch_dev_table lane) fchid
        (update (d.fch_dev_table lane fchid) (kind_index kind) e));
}

-- One bit of a flag at a position.
abbrev pub flag_at : ℕ → ℕ → ℕ
flag_at flag k = flag % 2 * 2 ^ k

abbrev pub id_word : ℕ → ℕ → ℕ
id_word cid extif_id = bit_or cid (flag_at extif_id 9)

unfoldable pub ingress_word : FpgaId → ℕ
ingress_word id =
    bit_or (bit_or (bit_or id.fchid (flag_at id.enable_flag 16)) (flag_at id.active_flag 17))
      (flag_at id.direct_flag 18)

unfoldable pub egress_word : FpgaId → ℕ
egress_word id =
    bit_or
      (bit_or
        (bit_or (bit_or (id_word id.cid id.extif_id) (flag_at id.enable_flag 16))
          (flag_at id.active_flag 17))
        (flag_at id.virtual_flag 19))
      (flag_at id.blocking_flag 20)

-- The fields that a read of the table stores.
unfoldable pub decode_ingress : FpgaId → ℕ → FpgaId
decode_ingress id read_val = record id {
  fchid = field read_val 0 9;
  enable_flag = field read_val 16 1;
  active_flag = field read_val 17 1;
  direct_flag = field read_val 18 1;
}

unfoldable pub decode_egress : FpgaId → ℕ → FpgaId
decode_egress id read_val = record id {
  extif_id = field read_val 9 1;
  cid = field read_val 0 9;
  enable_flag = field read_val 16 1;
  active_flag = field read_val 17 1;
  virtual_flag = field read_val 19 1;
  blocking_flag = field read_val 20 1;
}

-- The loop that waits for the response 1, for `left` looks: whether it came.
unfoldable pub poll_resp : ℕ → Dev → Kind → ℕ → Bool × Dev
unfolding chain_reg_read
poll_resp zero d kind lane = (false, d)
poll_resp (suc left) d kind lane =
    let (resp, d1) = chain_reg_read d (update_resp kind) lane in
    let rest = poll_resp left d1 kind lane in if resp == 1 then (true, d1) else rest

-- XPCIE_CID_MIN is 0, and a cid has no sign.
abbrev pub is_cid : FpgaId → Bool
is_cid id = leb id.cid 511 && (id.extif_id == 0 || id.extif_id == 1)

-- The writes of an update before the wait.
unfoldable pub request_update : Dev → FpgaId → Kind → Dev
unfolding chain_reg_write
request_update d id ingress =
    let d1 = chain_reg_write d (update_req ingress) id.lane 0 in
    let d2 = chain_reg_write d1 (forward_session ingress) id.lane (id_word id.cid id.extif_id) in
    let d3 = chain_reg_write d2 (forward_channel ingress) id.lane (ingress_word id) in
    chain_reg_write d3 (update_req ingress) id.lane 1
request_update d id egress =
    let d1 = chain_reg_write d (update_req egress) id.lane 0 in
    let d2 = chain_reg_write d1 (forward_channel egress) id.lane id.fchid in
    let d3 = chain_reg_write d2 (forward_session egress) id.lane (egress_word id) in
    chain_reg_write d3 (update_req egress) id.lane 1
request_update d id other_kind = d

unfoldable pub finish_update : Bool × Dev → FpgaId → Kind → Option (Ret × Dev)
unfolding set_entry
finish_update (false, d) id kind = some (err update_timeout, d)
finish_update (true, d) id kind =
    if is_entry id.lane id.fchid kind
    then some (
      ok,
      set_entry d id.lane id.fchid kind (record { extif_id = pos id.extif_id; cid = pos id.cid }),
    )
    else none

-- `xpcie_fpga_update_func_chain_table`
unfoldable pub update_func_chain_table : Dev → FpgaId → Kind → Option (Ret × Dev)
update_func_chain_table d id other_kind = some (err einval, d)
update_func_chain_table d id kind =
    if is_cid id
    then finish_update (poll_resp polling_max (request_update d id kind) kind id.lane) id kind
    else some (err einval, d)

-- The identifiers that the table shows where there is no chain.
abbrev pub no_chain : ℤ
no_chain = negsuc 0

-- An `int` as `uint32_t`, for the numbers of 32 bits.
abbrev pub to_u32 : ℤ → ℕ
to_u32 (pos n) = n
to_u32 (negsuc n) = 2 ^ 32 - suc n

abbrev pub is_empty : ExtifCid → Bool
is_empty e = eqb_ℤ e.cid no_chain || eqb_ℤ e.extif_id no_chain

unfoldable pub request_delete : Dev → FpgaId → Kind → Dev
unfolding chain_reg_write
request_delete d id ingress =
    let e = entry_at d id.lane id.fchid ingress in
    let d1 = chain_reg_write d (update_req ingress) id.lane 0 in
    let d2 =
      chain_reg_write d1 (forward_session ingress) id.lane
        (id_word (to_u32 e.cid) (to_u32 e.extif_id)) in
    chain_reg_write d2 (update_req ingress) id.lane 2
request_delete d id egress =
    let d1 = chain_reg_write d (update_req egress) id.lane 0 in
    let d2 = chain_reg_write d1 (forward_channel egress) id.lane id.fchid in
    chain_reg_write d2 (update_req egress) id.lane 2
request_delete d id other_kind = d

unfoldable pub finish_delete : Bool × Dev → FpgaId → Kind → Ret × Dev × FpgaId
unfolding set_entry
finish_delete (false, d) id kind = (err update_timeout, d, id)
finish_delete (true, d) id kind =
    let e = entry_at d id.lane id.fchid kind in
    (
      ok,
      set_entry d id.lane id.fchid kind (record { extif_id = no_chain; cid = no_chain }),
      record id { extif_id = to_u32 e.extif_id; cid = to_u32 e.cid % 2 ^ 16 },
    )

-- `xpcie_fpga_delete_func_chain_table`, which looks at the table before it looks at the kind.
unfoldable pub delete_func_chain_table : Dev → FpgaId → Kind → Option (Ret × Dev × FpgaId)
delete_func_chain_table d id kind =
    if not (is_entry id.lane id.fchid kind)
    then none
    else if is_empty (entry_at d id.lane id.fchid kind)
    then some (err no_chain_found, d, id)
    else some
        (finish_delete (poll_resp polling_max (request_delete d id kind) kind id.lane) id kind)
