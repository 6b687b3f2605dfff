-- ===== src/Lldma.antt =====
-- The LLDMA module of the driver, driver/lldma: registers, channels, command queues, connections.
pub mod Regs
pub mod Channel
pub mod Queue
pub mod Connect
pub mod Status
pub mod Buffer
pub mod Alloc
pub mod Outcome
pub mod Tidy
pub mod Bound
