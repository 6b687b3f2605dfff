-- ===== src/Bus.antt =====
-- Register access of driver/libxpcie.h: `reg_read32` and `reg_write32`. The FPGA behind the bus is
-- not under the repository: it is a function that answers each read from the history of accesses,
-- so that its registers may change in any way between two reads.
pub mod Trace
use hardware_drivers.Prelude.{ℕ, ◌%◌, ◌^◌, List, ◌∷◌}

pub data Access : Type 0 where
  load : ℕ → Access
  store : ℕ → ℕ → Access

-- The log holds the latest access first.
pub record Bus : Type 0 where
  pub log : List Access
  pub answer : List Access → ℕ → ℕ

abbrev pub u32 : ℕ → ℕ
u32 x = x % 2 ^ 32

unfoldable pub reg_read32 : Bus → ℕ → ℕ × Bus
reg_read32 b offset =
    (u32 (b.answer b.log (u32 offset)), record b { log = load (u32 offset) ∷ b.log })

unfoldable pub reg_write32 : Bus → ℕ → ℕ → Bus
reg_write32 b offset value = record b { log = store (u32 offset) (u32 value) ∷ b.log }
