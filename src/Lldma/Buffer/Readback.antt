-- ===== src/Lldma/Buffer/Readback.antt =====
-- What `xpcie_fpga_read_cif_ddr4_regs` reports of the chain buffers.
use hardware_drivers.Prelude.{ℕ, zero, suc, ◌+◌, ◌*◌, ◌<◌, ◌≡◌, arith, List, ℕ_discrete}
use hardware_drivers.Bus.{Access, u32}
use hardware_drivers.Device.{Dev, lldma_reg_read}
use hardware_drivers.Lldma.Regs.{cif_dn_rx_base_l}
use hardware_drivers.Lldma.Buffer.{BufferRegs, read_lane, read_lanes, read_cif_ddr4_regs}

-- The device whose registers hold the words `mem` and do not change.
abbrev pub holding : Dev → (ℕ → ℕ) → List Access → Dev
holding d mem log = record d { bus = record { log = log; answer = λ _ a. mem a } }

-- The lower word of the RX base of a lane.
abbrev pub dn_rx_l : Dev → (ℕ → ℕ) → ℕ → ℕ
dn_rx_l d mem lane = u32 (mem (u32 (d.lldma.base + d.lldma.len * 0 + cif_dn_rx_base_l lane)))

-- All four words that are reported for a lane are `v`.
pub record IsAll (regs : BufferRegs) (lane v : ℕ) : Type 0 where
  pub low : regs.dn_rx_val_l lane ≡ v
  pub high : regs.dn_rx_val_h lane ≡ v
  pub tx_low : regs.up_tx_val_l lane ≡ v
  pub tx_high : regs.up_tx_val_h lane ≡ v

module _ (d : Dev) (mem : ℕ → ℕ) where
  read_lanes-IsAll :
      (left lane : ℕ) (log : List Access) (regs : BufferRegs) (j : ℕ)
      → ((j < lane) → IsAll regs j (dn_rx_l d mem j))
      → j < lane + left
      → IsAll (read_lanes left lane (holding d mem log) regs).0 j (dn_rx_l d mem j)
  unfolding read_lanes read_lane lldma_reg_read
  read_lanes-IsAll zero lane log regs j done h = done (omega arith)
  read_lanes-IsAll (suc left) lane log regs j done h =
      read_lanes-IsAll left (lane + 1) _ _ j
        (λ l. elim (ℕ_discrete j lane) [
          | yes e ↦ record {
            low = ground arith;
            high = ground arith;
            tx_low = ground arith;
            tx_high = ground arith;
          }
          | no n ↦
              let old = done (ground arith) in
              record {
                low = ground (arith, old.low);
                high = ground (arith, old.high);
                tx_low = ground (arith, old.tx_low);
                tx_high = ground (arith, old.tx_high);
              }
        ])
        (omega arith)

-- While the registers do not change, `xpcie_fpga_read_cif_ddr4_regs` reports the lower word of the
-- RX base of a lane in all four fields of that lane, whatever the other three registers hold.
pub read_cif_ddr4_regs-IsAll :
    (d : Dev) (mem : ℕ → ℕ) (log : List Access) (regs : BufferRegs) (lane : ℕ)
    → lane < 4
    → IsAll (read_cif_ddr4_regs (holding d mem log) regs).0 lane (dn_rx_l d mem lane)
unfolding read_cif_ddr4_regs
read_cif_ddr4_regs-IsAll d mem log regs lane h =
    let all = read_lanes-IsAll d mem 4 0 log regs lane (λ l. absurd (omega arith)) h in
    record { low = all.low; high = all.high; tx_low = all.tx_low; tx_high = all.tx_high }
