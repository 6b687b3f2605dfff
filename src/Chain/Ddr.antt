-- ===== src/Chain/Ddr.antt =====
-- The offsets of the buffers in DDR memory that the driver sets for a lane,
-- `xpcie_fpga_set_ddr_offset_frame` of driver/chain/libxpcie_chain.c with the values of
-- driver/chain/xpcie_regs_chain.h. Whether the driver was built with EXTIFINV is an argument.
pub mod Memory
pub mod Kept
use hardware_drivers.Prelude.{ℕ, ◌+◌, Bool, true, false, List, [], ◌∷◌, ◌==◌, if◌then◌else◌}
use hardware_drivers.Device.{Dev, chain_reg_write}

-- The upper word of the base of the network interface.
abbrev pub nw_base_h : ℕ → ℕ
nw_base_h lane =
    if lane == 0 then 0x8 else if lane == 1 then 0x9 else if lane == 2 then 0xA else 0xB

-- The words of an interface, in the order in which they are written, each with its place from the
-- first register of the interface on.
abbrev pub nw_words : ℕ → List (ℕ × ℕ)
nw_words lane =
    (0x0, 0x0)
    ∷ (0x4, nw_base_h lane)
    ∷ (0x10, 0x0)
    ∷ (0x14, 0x0)
    ∷ (0x18, 0x200000)
    ∷ (0x1C, 0xA)
    ∷ (0x20, 0x100000)
    ∷ (0x24, 0x0)
    ∷ (0x28, 0x200000)
    ∷ (0x2C, 0xA)
    ∷ []

abbrev pub lldma_words : List (ℕ × ℕ)
lldma_words =
    (0x0, 0x0)
    ∷ (0x4, 0x0)
    ∷ (0x10, 0x0)
    ∷ (0x14, 0x0)
    ∷ (0x18, 0x100000)
    ∷ (0x1C, 0xA)
    ∷ (0x20, 0x2000000)
    ∷ (0x24, 0x0)
    ∷ (0x28, 0x100000)
    ∷ (0x2C, 0xA)
    ∷ []

abbrev pub extif0_words : Bool → ℕ → List (ℕ × ℕ)
extif0_words extifinv lane = if extifinv then nw_words lane else lldma_words

abbrev pub extif1_words : Bool → ℕ → List (ℕ × ℕ)
extif1_words extifinv lane = if extifinv then lldma_words else nw_words lane

unfoldable pub write_words : Dev → ℕ → ℕ → List (ℕ × ℕ) → Dev
unfolding chain_reg_write
write_words d first lane [] = d
write_words d first lane ((k, v) ∷ words) =
    write_words (chain_reg_write d (first + k) lane v) first lane words

unfoldable pub set_ddr_offset_frame : Bool → Dev → ℕ → ℕ → Dev
unfolding write_words
set_ddr_offset_frame extifinv d extif_id lane =
    if extif_id == 0
    then write_words d 0x100 lane (extif0_words extifinv lane)
    else if extif_id == 1
    then write_words d 0x140 lane (extif1_words extifinv lane)
    else d
