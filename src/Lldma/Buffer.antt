-- ===== src/Lldma/Buffer.antt =====
-- The chain buffers of the LLDMA module, driver/lldma/libxpcie_lldma.c:
-- `xpcie_fpga_set_lldma_buffer` and `xpcie_fpga_read_cif_ddr4_regs` with their helpers.
pub mod Readback
use hardware_drivers.Prelude.{ℕ, zero, suc, ◌+◌, Bool, if◌then◌else◌, update}
use hardware_drivers.Device.{kernel_lane_max, Dev, lldma_reg_read, lldma_reg_write}
use hardware_drivers.Lldma.Regs.{
  cif_dn_rx_base_l, cif_dn_rx_base_h, cif_dn_rx_ddr_size, cif_up_tx_base_l, cif_up_tx_base_h,
  cif_up_tx_ddr_size, cif_dn_rx_base_val_l, cif_up_tx_base_val_l,
}

unfoldable pub set_cif_base_addr : Dev → ℕ → Bool → Dev
unfolding lldma_reg_write
set_cif_base_addr d lane is_init =
    let dn_rx_val_l = if is_init then cif_dn_rx_base_val_l lane else 0 in
    let up_tx_val_l = if is_init then cif_up_tx_base_val_l lane else 0 in
    let d1 = lldma_reg_write d (cif_dn_rx_base_l lane) dn_rx_val_l in
    let d2 = lldma_reg_write d1 (cif_dn_rx_base_h lane) 0 in
    let d3 = lldma_reg_write d2 (cif_up_tx_base_l lane) up_tx_val_l in
    lldma_reg_write d3 (cif_up_tx_base_h lane) 0

-- Both sizes are 0 whether the buffer is set or cleared.
unfoldable pub set_cif_size_ddr4 : Dev → Bool → Dev
unfolding lldma_reg_write
set_cif_size_ddr4 d is_init =
    lldma_reg_write (lldma_reg_write d cif_dn_rx_ddr_size 0) cif_up_tx_ddr_size 0

-- The loop of `xpcie_fpga_set_lldma_buffer`, with the lanes left and the next lane.
unfoldable pub set_lanes : ℕ → ℕ → Bool → Dev → Dev
unfolding set_cif_base_addr
set_lanes zero lane is_init d = d
set_lanes (suc left) lane is_init d =
    set_lanes left (lane + 1) is_init (set_cif_base_addr d lane is_init)

unfoldable pub set_lldma_buffer : Dev → Bool → Dev
unfolding set_lanes set_cif_size_ddr4
set_lldma_buffer d is_init = set_cif_size_ddr4 (set_lanes kernel_lane_max 0 is_init d) is_init

-- `fpga_ioctl_lldma_buffer_regs_t`
pub record BufferRegs : Type 0 where
  pub dn_rx_val_l : ℕ → ℕ
  pub dn_rx_val_h : ℕ → ℕ
  pub up_tx_val_l : ℕ → ℕ
  pub up_tx_val_h : ℕ → ℕ
  pub dn_rx_ddr_size : ℕ
  pub up_tx_ddr_size : ℕ

-- One round of the loop of `xpcie_fpga_read_cif_ddr4_regs`: the code reads the lower word of the
-- RX base for all four fields.
unfoldable pub read_lane : ℕ → Dev → BufferRegs → BufferRegs × Dev
unfolding lldma_reg_read
read_lane lane d regs =
    let (v1, d1) = lldma_reg_read d (cif_dn_rx_base_l lane) in
    let (v2, d2) = lldma_reg_read d1 (cif_dn_rx_base_l lane) in
    let (v3, d3) = lldma_reg_read d2 (cif_dn_rx_base_l lane) in
    let (v4, d4) = lldma_reg_read d3 (cif_dn_rx_base_l lane) in
    (
      record regs {
        dn_rx_val_l = update regs.dn_rx_val_l lane v1;
        dn_rx_val_h = update regs.dn_rx_val_h lane v2;
        up_tx_val_l = update regs.up_tx_val_l lane v3;
        up_tx_val_h = update regs.up_tx_val_h lane v4;
      },
      d4,
    )

unfoldable pub read_lanes : ℕ → ℕ → Dev → BufferRegs → BufferRegs × Dev
unfolding read_lane
read_lanes zero lane d regs = (regs, d)
read_lanes (suc left) lane d regs =
    let (regs', d') = read_lane lane d regs in read_lanes left (lane + 1) d' regs'

unfoldable pub read_cif_ddr4_regs : Dev → BufferRegs → BufferRegs × Dev
unfolding read_lanes lldma_reg_read
read_cif_ddr4_regs d regs =
    let (regs1, d1) = read_lanes kernel_lane_max 0 d regs in
    let (dn, d2) = lldma_reg_read d1 cif_dn_rx_ddr_size in
    let (up, d3) = lldma_reg_read d2 cif_up_tx_ddr_size in
    (record regs1 { dn_rx_ddr_size = dn; up_tx_ddr_size = up }, d3)
