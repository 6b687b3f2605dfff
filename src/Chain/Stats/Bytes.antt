-- ===== src/Chain/Stats/Bytes.antt =====
-- What a byte counter reports.
use hardware_drivers.Prelude.{ℕ, ◌+◌, ◌*◌, ◌^◌, ◌<◌, ◌≡◌, refl, arith, some}
use hardware_drivers.Prelude.Bits.{bit_or_disjoint}
use hardware_drivers.Bus.{u32}
use hardware_drivers.Device.{Dev, chain_reg_read, chain_reg_write}
use hardware_drivers.Chain.Stats.{Counter, byte_regs, read_pair, read_bytes, get_chain_bytes}

u32_lt : (n : ℕ) → u32 n < 2 ^ 32
u32_lt n = omega arith

pair_lt : (low high : ℕ) → low < 2 ^ 32 → high < 2 ^ 32 → low + high * 2 ^ 32 < 2 ^ 64
pair_lt low high p q = omega arith

-- A known byte counter is read after its session or channel was selected: the report is the lower
-- word read first plus 2 ^ 32 times the upper word read after it, and less than 2 ^ 64.
pub get_chain_bytes_lem :
    (d : Dev) (reg_id : Counter) (lane cid_fchid addr_w addr_l addr_h : ℕ)
    → byte_regs reg_id ≡ some (addr_w, addr_l, addr_h)
    → let d1 = chain_reg_write d addr_w lane cid_fchid in
      let (low, d2) = chain_reg_read d1 addr_l lane in
      let (high, d3) = chain_reg_read d2 addr_h lane in
      (get_chain_bytes d reg_id lane cid_fchid ≡ (some (low + high * 2 ^ 32), d3))
      × (low + high * 2 ^ 32 < 2 ^ 64)
unfolding get_chain_bytes read_bytes read_pair
get_chain_bytes_lem d reg_id lane cid_fchid addr_w addr_l addr_h e =
    let d1 = chain_reg_write d addr_w lane cid_fchid in
    let (low, d2) = chain_reg_read d1 addr_l lane in
    let (high, d3) = chain_reg_read d2 addr_h lane in
    (rw (e, bit_or_disjoint 32 low high (u32_lt _)) refl, pair_lt low high (u32_lt _) (u32_lt _))
