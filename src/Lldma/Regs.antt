-- ===== src/Lldma/Regs.antt =====
-- Register map and selectors of driver/lldma/xpcie_regs_lldma.h.
use hardware_drivers.Prelude.{ℕ, ◌+◌, Bool, true, false, if◌then◌else◌, ◌==◌}
use hardware_drivers.Device.{Dir, host_to_dev, nw_to_dev, d2d_rx, d2d_d_rx}

-- `__IS_RX_DMA`
abbrev pub is_rx_dma : Dir → Bool
is_rx_dma host_to_dev = true
is_rx_dma nw_to_dev = true
is_rx_dma d2d_rx = true
is_rx_dma d2d_d_rx = true
is_rx_dma _ = false

abbrev pub rxch_avail : ℕ
rxch_avail = 0x0200

abbrev pub txch_avail : ℕ
txch_avail = 0x0400

abbrev pub rxch_sel : ℕ
rxch_sel = 0x020C

abbrev pub rxch_ctrl0 : ℕ
rxch_ctrl0 = 0x0210

abbrev pub ch_avail : Dir → ℕ
ch_avail dir = if is_rx_dma dir then 0x0200 else 0x0400

abbrev pub ch_active : Dir → ℕ
ch_active dir = if is_rx_dma dir then 0x0204 else 0x0404

abbrev pub ch_sel : Dir → ℕ
ch_sel dir = if is_rx_dma dir then 0x020C else 0x040C

abbrev pub ch_ctrl0 : Dir → ℕ
ch_ctrl0 dir = if is_rx_dma dir then 0x0210 else 0x0410

abbrev pub ch_ctrl1 : Dir → ℕ
ch_ctrl1 dir = if is_rx_dma dir then 0x0214 else 0x0414

abbrev pub q_ctrl : Dir → ℕ
q_ctrl dir = if is_rx_dma dir then 0x0220 else 0x0420

abbrev pub q_addr_dn : Dir → ℕ
q_addr_dn dir = if is_rx_dma dir then 0x0228 else 0x0428

abbrev pub q_addr_up : Dir → ℕ
q_addr_up dir = if is_rx_dma dir then 0x022C else 0x042C

abbrev pub buf_addr_dn : Dir → ℕ
buf_addr_dn dir = if is_rx_dma dir then 0x0238 else 0x0438

abbrev pub buf_addr_up : Dir → ℕ
buf_addr_up dir = if is_rx_dma dir then 0x023C else 0x043C

abbrev pub buf_size : Dir → ℕ
buf_size dir = if is_rx_dma dir then 0x0240 else 0x0440

abbrev pub cif_dn_rx_base_l : ℕ → ℕ
cif_dn_rx_base_l lane =
    if lane == 0 then 0x0600 else if lane == 1 then 0x0608 else if lane == 2 then 0x0610 else 0x0618

abbrev pub cif_dn_rx_base_h : ℕ → ℕ
cif_dn_rx_base_h lane = cif_dn_rx_base_l lane + 0x4

abbrev pub cif_dn_rx_ddr_size : ℕ
cif_dn_rx_ddr_size = 0x0680

abbrev pub cif_up_tx_base_l : ℕ → ℕ
cif_up_tx_base_l lane =
    if lane == 0 then 0x0800 else if lane == 1 then 0x0808 else if lane == 2 then 0x0810 else 0x0818

abbrev pub cif_up_tx_base_h : ℕ → ℕ
cif_up_tx_base_h lane = cif_up_tx_base_l lane + 0x4

abbrev pub cif_up_tx_ddr_size : ℕ
cif_up_tx_ddr_size = 0x0880

abbrev pub cif_dn_rx_base_val_l : ℕ → ℕ
cif_dn_rx_base_val_l lane =
    if lane == 0
    then 0x00000000
    else if lane == 1
    then 0x00800000
    else if lane == 2
    then 0x01000000
    else 0x01800000

abbrev pub cif_up_tx_base_val_l : ℕ → ℕ
cif_up_tx_base_val_l lane =
    if lane == 0
    then 0x02000000
    else if lane == 1
    then 0x02800000
    else if lane == 2
    then 0x03000000
    else 0x03800000

-- ENABLE_IE, ENABLE_OE and ENABLE_CLEAR, and the modes of CH_CTRL1.
abbrev pub enable_ie : ℕ
enable_ie = 1

abbrev pub enable_oe : ℕ
enable_oe = 2

abbrev pub enable_clear : ℕ
enable_clear = 4

abbrev pub ctrl1_host : ℕ
ctrl1_host = 0

abbrev pub ctrl1_d2d_h : ℕ
ctrl1_d2d_h = 1

abbrev pub ctrl1_d2d_d : ℕ
ctrl1_d2d_d = 2
