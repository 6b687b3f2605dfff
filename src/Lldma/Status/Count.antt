-- ===== src/Lldma/Status/Count.antt =====
-- The count of available channels.
use hardware_drivers.Prelude.{ℕ, zero, suc, ◌+◌, ◌/◌, ◌%◌, ◌^◌, ◌≤◌, ◌≡◌, ◌∙◌, arith, bit_or, max}
use hardware_drivers.Prelude.Bits.{bit_or-bit}
use hardware_drivers.Device.{Dev, lldma_reg_read, max_queue_pair}
use hardware_drivers.Lldma.Regs.{rxch_avail, txch_avail}
use hardware_drivers.Lldma.Status.{count_bits, count_available_dma_channel}

-- The bit of a channel in a register.
abbrev pub bit : ℕ → ℕ → ℕ
bit w c = w / 2 ^ c % 2

-- How many of `left` channels from `c` on have a bit in `rx` or in `tx`.
unfoldable pub count_either : ℕ → ℕ → ℕ → ℕ → ℕ
count_either zero c rx tx = 0
count_either (suc left) c rx tx = max (bit rx c) (bit tx c) + count_either left (c + 1) rx tx

count_either_le : (left c rx tx : ℕ) → count_either left c rx tx ≤ left
unfolding count_either
count_either_le zero c rx tx = omega arith
count_either_le (suc left) c rx tx = omega (arith, count_either_le left (c + 1) rx tx)

count_bits-either :
    (left c rx tx count : ℕ)
    → count_bits left c (bit_or rx tx) count ≡ count + count_either left c rx tx
unfolding count_bits count_either
count_bits-either zero c rx tx count = omega arith
count_bits-either (suc left) c rx tx count =
    omega (
      arith,
      count_bits-either left (c + 1) rx tx (count + bit (bit_or rx tx) c),
      bit_or-bit c rx tx,
    )

le_of_eq : {n m k : ℕ} → n ≡ m → m ≤ k → n ≤ k
le_of_eq e h = omega arith

zero-add : (n : ℕ) → 0 + n ≡ n
zero-add n = omega arith

count_word : (rx tx : ℕ) → count_bits 32 0 (bit_or rx tx) 0 ≡ count_either 32 0 rx tx
count_word rx tx = count_bits-either 32 0 rx tx 0 ∙ zero-add (count_either 32 0 rx tx)

-- `xpcie_fpga_count_available_dma_channel` counts the channels, of 32, that the RX availability
-- register or the TX availability register shows, and so counts no more than the arrays of queues
-- have entries.
pub count_available :
    (d : Dev)
    → let (rx, d1) = lldma_reg_read d rxch_avail in
      let (tx, d2) = lldma_reg_read d1 txch_avail in
      ((count_available_dma_channel d).available_dma_channel_num ≡ count_either 32 0 rx tx)
      × ((count_available_dma_channel d).available_dma_channel_num ≤ max_queue_pair)
unfolding count_available_dma_channel
count_available d =
    let (rx, d1) = lldma_reg_read d rxch_avail in
    let (tx, d2) = lldma_reg_read d1 txch_avail in
    (count_word rx tx, le_of_eq (count_word rx tx) (count_either_le 32 0 rx tx))
