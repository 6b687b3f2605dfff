-- ===== src/Lanes.antt =====
-- The search for the lanes of a module at start-up: `xpcie_fpga_common_get_chain_module_info` of
-- driver/chain/libxpcie_chain.c and `xpcie_fpga_common_get_direct_module_info` of
-- driver/direct/libxpcie_direct.c.
pub mod Found
use hardware_drivers.Prelude.{ℕ, zero, suc, ◌+◌, ◌*◌, ◌==◌, if◌then◌else◌}
use hardware_drivers.Bus.{reg_read32}
use hardware_drivers.Device.{kernel_lane_max, Dev, ModuleInfo, Ret, ok, err, enodev}

-- Where a module's lanes are, and the word by which a lane shows that it is there.
pub record Place : Type 0 where
  pub offset : ℕ
  pub size : ℕ
  pub id_offset : ℕ
  pub id_value : ℕ

abbrev pub chain_place : Place
chain_place = record { offset = 0x1000; size = 0x1000; id_offset = 0x10; id_value = 0xF0C0 }

abbrev pub direct_place : Place
direct_place = record { offset = 0x5000; size = 0x1000; id_offset = 0x10; id_value = 0xF3C0 }

-- The loop from lane `num` on, for `fuel` lanes: it stops at the first that is not there.
unfoldable pub count_lanes : Place → ℕ → Dev → ℕ → ℕ × Dev
unfolding reg_read32
count_lanes p zero d num = (num, d)
count_lanes p (suc fuel) d num =
    let (value, b) = reg_read32 d.bus (p.offset + num * p.size + p.id_offset) in
    let rest = count_lanes p fuel (record d { bus = b }) (num + 1) in
    if value == p.id_value then rest else (num, record d { bus = b })

abbrev pub found_info : Place → ℕ → ModuleInfo → ModuleInfo
found_info p num info = record info { base = p.offset; len = p.size; num = num }

abbrev pub found_ret : ℕ → Ret
found_ret num = if num == 0 then err enodev else ok

unfoldable pub get_chain_module_info : Dev → Ret × Dev
unfolding count_lanes
get_chain_module_info d =
    let (num, d') = count_lanes chain_place kernel_lane_max d 0 in
    (found_ret num, record d' { chain = found_info chain_place num d'.chain })

unfoldable pub get_direct_module_info : Dev → Ret × Dev
unfolding count_lanes
get_direct_module_info d =
    let (num, d') = count_lanes direct_place kernel_lane_max d 0 in
    (found_ret num, record d' { direct = found_info direct_place num d'.direct })
