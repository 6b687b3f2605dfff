-- ===== src/Direct.antt =====
-- The direct transfer module, driver/direct/libxpcie_direct.c: its lanes, its counters and the
-- faults of its protocol and stream interfaces.
pub mod Faults
pub mod Kept
pub mod Ioctl
use hardware_drivers.Prelude.{ℕ, ◌+◌, ◌*◌, ◌%◌, ◌^◌, Option, none, some, bit_or}
use hardware_drivers.Device.{Dev, direct_reg_read, direct_reg_write}

-- `DIRECT_DIR_KIND` and `DIRECT_REG_COUNTER`, which have the same numbers; `other_dir_type` is
-- every number without a name.
pub data DirType : Type 0 where
  ingr_rcv ingr_snd egr_rcv egr_snd other_dir_type : DirType

unfoldable pub start_direct_module : Dev → ℕ → Dev
unfolding direct_reg_write
start_direct_module d kernel_lane = direct_reg_write d 0x0 kernel_lane 1

unfoldable pub stop_direct_module : Dev → ℕ → Dev
unfolding direct_reg_write
stop_direct_module d kernel_lane = direct_reg_write d 0x0 kernel_lane 0

unfoldable pub get_direct_ctrl : Dev → ℕ → ℕ × Dev
unfolding direct_reg_read
get_direct_ctrl d lane = direct_reg_read d 0x0 lane

unfoldable pub get_direct_module_id : Dev → ℕ → ℕ × Dev
unfolding direct_reg_read
get_direct_module_id d lane = direct_reg_read d 0x10 lane

-- The lower and the upper word of a byte counter.
abbrev pub direct_byte_regs : DirType → Option (ℕ × ℕ)
direct_byte_regs ingr_rcv = some (0x50, 0x54)
direct_byte_regs ingr_snd = some (0x58, 0x5C)
direct_byte_regs egr_rcv = some (0x60, 0x64)
direct_byte_regs egr_snd = some (0x68, 0x6C)
direct_byte_regs other_dir_type = none

unfoldable pub read_direct_bytes : Dev → Option (ℕ × ℕ) → ℕ → ℕ → Option ℕ × Dev
unfolding direct_reg_read direct_reg_write
read_direct_bytes d none lane fchid = (none, d)
read_direct_bytes d (some (addr_l, addr_h)) lane fchid =
    let d1 = direct_reg_write d 0x40 lane fchid in
    let (value_l, d2) = direct_reg_read d1 addr_l lane in
    let (value_h, d3) = direct_reg_read d2 addr_h lane in
    (some (bit_or value_l (value_h * 2 ^ 32)), d3)

unfoldable pub get_direct_bytes : Dev → DirType → ℕ → ℕ → Option ℕ × Dev
get_direct_bytes d reg_id lane fchid = read_direct_bytes d (direct_byte_regs reg_id) lane fchid

-- `addr` is not set for a number without a name: it is the argument `garbage`.
abbrev pub direct_frame_reg : ℕ → DirType → ℕ
direct_frame_reg garbage ingr_rcv = 0x70
direct_frame_reg garbage ingr_snd = 0x74
direct_frame_reg garbage egr_rcv = 0x78
direct_frame_reg garbage egr_snd = 0x7C
direct_frame_reg garbage other_dir_type = garbage

unfoldable pub get_direct_frames : Dev → ℕ → DirType → ℕ → ℕ → ℕ × Dev
unfolding direct_reg_read direct_reg_write
get_direct_frames d garbage reg_id lane fchid =
    direct_reg_read (direct_reg_write d 0x40 lane fchid) (direct_frame_reg garbage reg_id) lane

unfoldable pub check_direct_err : Dev → ℕ → ℕ × Dev
unfolding direct_reg_read
check_direct_err d lane = direct_reg_read d 0x100 lane
