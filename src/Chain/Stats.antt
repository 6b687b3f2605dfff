-- ===== src/Chain/Stats.antt =====
-- The counters of the chain module, driver/chain/libxpcie_chain.c: latencies, bytes, frames and
-- buffers, and the report of the DDR offsets. A counter that the code does not know leaves the
-- request as it was, which is `none`.
pub mod Bytes
use hardware_drivers.Prelude.{
  ℕ, ◌+◌, ◌*◌, ◌%◌, ◌^◌, Option, none, some, if◌then◌else◌, ◌==◌, bit_or,
}
use hardware_drivers.Device.{Dev, chain_reg_read, chain_reg_write}
use hardware_drivers.Chain.{Kind, ingress, egress, other_kind}

-- `CHAIN_REG_COUNTER`; `other_counter` is every number without a name.
pub data Counter : Type 0 where
  ingr_rcv0 ingr_rcv1 ingr_snd0 ingr_snd1 : Counter
  egr_rcv0 egr_rcv1 egr_snd0 egr_snd1 : Counter
  ingr_discard0 ingr_discard1 egr_discard0 egr_discard1 : Counter
  other_counter : Counter

abbrev pub stat_sel_session : ℕ
stat_sel_session = 0x300

abbrev pub stat_sel_channel : ℕ
stat_sel_channel = 0x308

-- The registers of a latency of one external interface, and of the other.
abbrev pub latency_reg : ℕ → ℕ → ℕ → Option ℕ
latency_reg extif_id reg0 reg1 =
    if extif_id == 0 then some reg0 else if extif_id == 1 then some reg1 else none

abbrev pub latency_regs : Kind → ℕ → Option ℕ
latency_regs ingress extif_id = latency_reg extif_id 0x320 0x324
latency_regs egress extif_id = latency_reg extif_id 0x328 0x32C
latency_regs other_kind extif_id = none

unfoldable pub read_if : Dev → Option ℕ → ℕ → Option ℕ × Dev
unfolding chain_reg_read
read_if d none lane = (none, d)
read_if d (some offset) lane = let (v, d') = chain_reg_read d offset lane in (some v, d')

unfoldable pub get_latency_chain : Dev → ℕ → Kind → ℕ → ℕ → Option ℕ × Dev
unfolding chain_reg_write
get_latency_chain d lane dir extif_id cid =
    read_if (chain_reg_write d stat_sel_session lane cid) (latency_regs dir extif_id) lane

unfoldable pub get_latency_func : Dev → ℕ → ℕ → ℕ × Dev
unfolding chain_reg_read chain_reg_write
get_latency_func d lane fchid =
    chain_reg_read (chain_reg_write d stat_sel_channel lane fchid) 0x330 lane

-- The registers of a byte counter: the selector, the lower and the upper word.
abbrev pub byte_regs : Counter → Option (ℕ × ℕ × ℕ)
byte_regs ingr_rcv0 = some (stat_sel_session, 0x340, 0x344)
byte_regs ingr_rcv1 = some (stat_sel_session, 0x348, 0x34C)
byte_regs ingr_snd0 = some (stat_sel_channel, 0x350, 0x354)
byte_regs ingr_snd1 = some (stat_sel_channel, 0x358, 0x35C)
byte_regs egr_rcv0 = some (stat_sel_channel, 0x360, 0x364)
byte_regs egr_rcv1 = some (stat_sel_channel, 0x368, 0x36C)
byte_regs egr_snd0 = some (stat_sel_session, 0x370, 0x374)
byte_regs egr_snd1 = some (stat_sel_session, 0x378, 0x37C)
byte_regs ingr_discard0 = some (stat_sel_channel, 0x3A0, 0x3A4)
byte_regs ingr_discard1 = some (stat_sel_channel, 0x3A8, 0x3AC)
byte_regs egr_discard0 = some (stat_sel_channel, 0x3B0, 0x3B4)
byte_regs egr_discard1 = some (stat_sel_channel, 0x3B8, 0x3BC)
byte_regs other_counter = none

-- Two words, the lower one first, as one number of 64 bits.
unfoldable pub read_pair : Dev → ℕ → ℕ → ℕ → ℕ × Dev
unfolding chain_reg_read
read_pair d addr_l addr_h lane =
    let (value_l, d1) = chain_reg_read d addr_l lane in
    let (value_h, d2) = chain_reg_read d1 addr_h lane in (bit_or value_l (value_h * 2 ^ 32), d2)

unfoldable pub read_bytes : Dev → Option (ℕ × ℕ × ℕ) → ℕ → ℕ → Option ℕ × Dev
unfolding chain_reg_write
read_bytes d none lane cid_fchid = (none, d)
read_bytes d (some (addr_w, addr_l, addr_h)) lane cid_fchid =
    let (byte_num, d') = read_pair (chain_reg_write d addr_w lane cid_fchid) addr_l addr_h lane in
    (some byte_num, d')

unfoldable pub get_chain_bytes : Dev → Counter → ℕ → ℕ → Option ℕ × Dev
get_chain_bytes d reg_id lane cid_fchid = read_bytes d (byte_regs reg_id) lane cid_fchid

abbrev pub frame_reg : Counter → Option ℕ
frame_reg ingr_snd0 = some 0x380
frame_reg ingr_snd1 = some 0x384
frame_reg egr_rcv0 = some 0x388
frame_reg egr_rcv1 = some 0x38C
frame_reg _ = none

unfoldable pub read_frames : Dev → Option ℕ → ℕ → ℕ → Option ℕ × Dev
unfolding chain_reg_write
read_frames d none lane fchid = (none, d)
read_frames d (some addr) lane fchid =
    read_if (chain_reg_write d stat_sel_channel lane fchid) (some addr) lane

unfoldable pub get_chain_frames : Dev → Counter → ℕ → ℕ → Option ℕ × Dev
get_chain_frames d reg_id lane fchid = read_frames d (frame_reg reg_id) lane fchid

unfoldable pub get_chain_buff : Dev → ℕ → ℕ → ℕ × Dev
unfolding chain_reg_read chain_reg_write
get_chain_buff d lane fchid =
    chain_reg_read (chain_reg_write d stat_sel_channel lane fchid) 0x400 lane

unfoldable pub get_chain_bp : Dev → ℕ → ℕ → ℕ × Dev
unfolding chain_reg_read chain_reg_write
get_chain_bp d lane fchid =
    chain_reg_read (chain_reg_write d stat_sel_channel lane fchid) 0x404 lane

unfoldable pub clear_chain_bp : Dev → ℕ → ℕ → ℕ → Dev
unfolding chain_reg_write
clear_chain_bp d lane fchid frame_num =
    chain_reg_write (chain_reg_write d stat_sel_channel lane fchid) 0x404 lane frame_num

unfoldable pub get_chain_busy : Dev → ℕ → ℕ → ℕ × Dev
unfolding chain_reg_read chain_reg_write
get_chain_busy d lane fchid =
    chain_reg_read (chain_reg_write d stat_sel_channel lane fchid) 0x40C lane

unfoldable pub check_chain_err : Dev → ℕ → ℕ × Dev
unfolding chain_reg_read
check_chain_err d lane = chain_reg_read d 0x500 lane

-- `fpga_ioctl_chain_ddr_t` without its lane and interface.
pub record ChainDdr : Type 0 where
  pub base : ℕ
  pub rx_offset : ℕ
  pub rx_stride : ℕ
  pub rx_size : ℕ
  pub tx_offset : ℕ
  pub tx_stride : ℕ
  pub tx_size : ℕ

-- The registers of one external interface, from its first one on.
unfoldable pub read_ddr : Dev → ℕ → ℕ → ChainDdr × Dev
unfolding chain_reg_read
read_ddr d first lane =
    let (base, d1) = read_pair d first (first + 0x4) lane in
    let (rx_offset, d2) = read_pair d1 (first + 0x10) (first + 0x14) lane in
    let (rx_stride, d3) = chain_reg_read d2 (first + 0x18) lane in
    let (rx_size, d4) = chain_reg_read d3 (first + 0x1C) lane in
    let (tx_offset, d5) = read_pair d4 (first + 0x20) (first + 0x24) lane in
    let (tx_stride, d6) = chain_reg_read d5 (first + 0x28) lane in
    let (tx_size, d7) = chain_reg_read d6 (first + 0x2C) lane in
    (
      record {
        base = base;
        rx_offset = rx_offset;
        rx_stride = rx_stride;
        rx_size = rx_size % 2 ^ 4;
        tx_offset = tx_offset;
        tx_stride = tx_stride;
        tx_size = tx_size % 2 ^ 4;
      },
      d7,
    )

unfoldable pub get_ddr_offset_frame : Dev → ℕ → ℕ → Option ChainDdr × Dev
get_ddr_offset_frame d extif_id lane =
    let (ddr0, d0) = read_ddr d 0x100 lane in
    let (ddr1, d1) = read_ddr d 0x140 lane in
    if extif_id == 0 then (some ddr0, d0) else if extif_id == 1 then (some ddr1, d1) else (none, d)
