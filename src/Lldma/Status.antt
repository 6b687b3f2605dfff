-- ===== src/Lldma/Status.antt =====
-- Status registers of the LLDMA module, driver/lldma/libxpcie_lldma.c: the count of channels, the
-- available and active channels, the connection of a channel, and the scan of RX control words.
pub mod Count
use hardware_drivers.Prelude.{ℕ, zero, suc, ◌+◌, ◌*◌, ◌/◌, ◌%◌, ◌^◌, ◌-◌, bit_or}
use hardware_drivers.Device.{Dev, Dir, lldma_reg_read, lldma_reg_write}
use hardware_drivers.Lldma.Regs.{
  rxch_avail, txch_avail, rxch_sel, rxch_ctrl0, ch_avail, ch_active, ch_sel, ch_ctrl1,
}

-- The loop of `xpcie_fpga_count_available_dma_channel` over the 32 bits of the word, with the
-- rounds left, the bit to add next and the count so far.
unfoldable pub count_bits : ℕ → ℕ → ℕ → ℕ → ℕ
count_bits zero i regval count = count
count_bits (suc left) i regval count = count_bits left (i + 1) regval (count + regval / 2 ^ i % 2)

unfoldable pub count_available_dma_channel : Dev → Dev
unfolding lldma_reg_read
count_available_dma_channel d =
    let (rx, d1) = lldma_reg_read d rxch_avail in
    let (tx, d2) = lldma_reg_read d1 txch_avail in
    record d2 { available_dma_channel_num = count_bits 32 0 (bit_or rx tx) 0 }

unfoldable pub get_avail_status : Dev → Dir → ℕ × Dev
unfolding lldma_reg_read
get_avail_status d dir = lldma_reg_read d (ch_avail dir)

unfoldable pub get_active_status : Dev → Dir → ℕ × Dev
unfolding lldma_reg_read
get_active_status d dir = lldma_reg_read d (ch_active dir)

unfoldable pub get_channel_status : Dev → ℕ → Dir → ℕ × Dev
unfolding lldma_reg_read lldma_reg_write
get_channel_status d chid dir = lldma_reg_read (lldma_reg_write d (ch_sel dir) chid) (ch_ctrl1 dir)

-- The connection id and the chain number that `xpcie_fpga_get_cid_chain_queue` stores.
unfoldable pub get_cid_chain_queue : Dev → Dir → ℕ → (ℕ × ℕ) × Dev
unfolding lldma_reg_read lldma_reg_write
get_cid_chain_queue d dir chid =
    let (word, d1) = lldma_reg_read (lldma_reg_write d (ch_sel dir) chid) (ch_ctrl1 dir) in
    ((word / 2 ^ 16 % 2 ^ 16, word / 2 ^ 8 % 2 ^ 8), d1)

unfoldable pub get_request_size : Dev → ℕ → ℕ × Dev
unfolding lldma_reg_read
get_request_size d chid = lldma_reg_read d (0x1900 + chid * 4)

-- The loop of `xpcie_fpga_get_rxch_ctrl0`: the union of the control words of 32 channels.
unfoldable pub collect_rxch_ctrl0 : ℕ → ℕ → ℕ → Dev → ℕ × Dev
unfolding lldma_reg_read lldma_reg_write
collect_rxch_ctrl0 zero i value_rd d = (value_rd, d)
collect_rxch_ctrl0 (suc left) i value_rd d =
    let (word, d1) = lldma_reg_read (lldma_reg_write d rxch_sel i) rxch_ctrl0 in
    collect_rxch_ctrl0 left (i + 1) (bit_or value_rd word) d1

unfoldable pub get_rxch_ctrl0 : Dev → ℕ × Dev
get_rxch_ctrl0 d = collect_rxch_ctrl0 32 0 0 d
