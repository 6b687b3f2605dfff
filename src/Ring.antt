-- ===== src/Ring.antt =====
-- The command queue that a process shares with the FPGA, lib/libfpga/src/libdma.c.
pub mod Command
pub mod Transfer
pub mod Slots
pub mod Fifo
pub mod Completion
pub mod Loop
pub mod Order
pub mod Safety
pub mod Fresh
pub mod Shared
pub mod Workers
