-- ===== src/Chain/Read.antt =====
-- Reads of the function chain table and the control of a lane, driver/chain/libxpcie_chain.c.
use hardware_drivers.Prelude.{
  ℕ, zero, suc, ◌+◌, Bool, true, false, not, ◌&&◌, ◌||◌, Option, none, some, ◌==◌, if◌then◌else◌,
}
use hardware_drivers.Prelude.Int.{pos, eqb_ℤ}
use hardware_drivers.Device.{
  kernel_lane_max, Dev, Ret, ok, err, einval, update_timeout, no_chain_found, chain_reg_read,
  chain_reg_write,
}
use hardware_drivers.Chain.{
  Kind, ingress, egress, other_kind, FpgaId, chain_control, update_req, forward_session,
  forward_channel, polling_max, function_chain_max, is_entry, is_empty, entry_at, id_word,
  decode_ingress, decode_egress, poll_resp, no_chain, to_u32,
}

-- An entry of the table has the identifiers of the request.
unfoldable pub is_named : Dev → FpgaId → ℕ → ℕ → Kind → Bool
is_named d id lane fchid kind =
    let e = entry_at d lane fchid kind in
    eqb_ℤ e.cid (pos id.cid) && to_u32 e.extif_id == id.extif_id

-- The loops over the kinds and the function channels of a lane, and over the lanes, with what is
-- left, the next index and the flag so far.
unfoldable pub find_fchid : Dev → FpgaId → ℕ → ℕ → ℕ → Bool → Bool
find_fchid d id lane zero fchid flag = flag
find_fchid d id lane (suc left) fchid flag =
    find_fchid d id lane left (fchid + 1)
      (flag || is_named d id lane fchid ingress || is_named d id lane fchid egress)

unfoldable pub find_lane : Dev → FpgaId → ℕ → ℕ → Bool → Bool
find_lane d id zero lane flag = flag
find_lane d id (suc left) lane flag =
    find_lane d id left (lane + 1) (find_fchid d id lane function_chain_max 0 flag)

unfoldable pub request_read : Dev → FpgaId → Kind → Dev
unfolding chain_reg_write
request_read d id ingress =
    let d1 = chain_reg_write d (update_req ingress) id.lane 0 in
    let d2 = chain_reg_write d1 (forward_session ingress) id.lane (id_word id.cid id.extif_id) in
    chain_reg_write d2 (update_req ingress) id.lane 3
request_read d id egress =
    let d1 = chain_reg_write d (update_req egress) id.lane 0 in
    let d2 = chain_reg_write d1 (forward_channel egress) id.lane id.fchid in
    chain_reg_write d2 (update_req egress) id.lane 3
request_read d id other_kind = d

-- The register that holds the answer, and the fields it fills.
abbrev pub read_addr : Kind → ℕ
read_addr ingress = forward_channel ingress
read_addr kind = forward_session kind

abbrev pub decode : Kind → FpgaId → ℕ → FpgaId
decode ingress id read_val = decode_ingress id read_val
decode egress id read_val = decode_egress id read_val
decode other_kind id read_val = id

unfoldable pub finish_read : Bool × Dev → FpgaId → Kind → Ret × Dev × FpgaId
unfolding chain_reg_read
finish_read (false, d) id kind = (err update_timeout, d, id)
finish_read (true, d) id kind =
    let (read_val, d1) = chain_reg_read d (read_addr kind) id.lane in
    (ok, d1, decode kind id read_val)

unfoldable pub read_requested : Dev → FpgaId → Kind → Ret × Dev × FpgaId
read_requested d id kind =
    finish_read (poll_resp polling_max (request_read d id kind) kind id.lane) id kind

-- `xpcie_fpga_read_func_chain_table`
unfoldable pub read_func_chain_table : Dev → FpgaId → Kind → Option (Ret × Dev × FpgaId)
read_func_chain_table d id ingress =
    if find_lane d id kernel_lane_max 0 false
    then some (read_requested d id ingress)
    else some (err no_chain_found, d, id)
read_func_chain_table d id egress =
    if not (is_entry id.lane id.fchid egress)
    then none
    else if is_empty (entry_at d id.lane id.fchid egress)
    then some (err no_chain_found, d, id)
    else some (read_requested d id egress)
read_func_chain_table d id other_kind = some (err einval, d, id)

-- The identifiers of both kinds, the ingress first, as `uint32_t`.
unfoldable pub read_chain_soft_table : Dev → ℕ → ℕ → Option ((ℕ × ℕ) × (ℕ × ℕ))
read_chain_soft_table d lane fchid =
    let ig = entry_at d lane fchid ingress in
    let eg = entry_at d lane fchid egress in
    if is_entry lane fchid ingress
    then some ((to_u32 ig.extif_id, to_u32 ig.cid), (to_u32 eg.extif_id, to_u32 eg.cid))
    else none

-- Bytes of 0xFF are -1 in every `int`.
unfoldable pub reset_chain_soft_table : Dev → Dev
reset_chain_soft_table d = record d {
  fch_dev_table = λ lane fchid kind. record { extif_id = no_chain; cid = no_chain };
}

unfoldable pub start_chain_module : Dev → ℕ → Dev
unfolding chain_reg_write
start_chain_module d lane = chain_reg_write d chain_control lane 1

unfoldable pub stop_chain_module : Dev → ℕ → Dev
unfolding chain_reg_write
stop_chain_module d lane = chain_reg_write d chain_control lane 0

unfoldable pub get_chain_ctrl : Dev → ℕ → ℕ × Dev
unfolding chain_reg_read
get_chain_ctrl d lane = chain_reg_read d chain_control lane

unfoldable pub get_chain_module_id : Dev → ℕ → ℕ × Dev
unfolding chain_reg_read
get_chain_module_id d lane = chain_reg_read d 0x10 lane
