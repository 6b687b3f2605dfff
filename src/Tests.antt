-- ===== src/Tests.antt =====
-- Concrete devices, queues and requests, and the theorems applied to them.
pub mod Samples
pub mod QueueRuns
pub mod ChannelRuns
pub mod RingRuns
pub mod ChainRuns
pub mod ShmemRuns
pub mod FaultRuns
pub mod FileRuns
pub mod ManagerRuns
mod LibchainRuns
mod WorkerRuns
