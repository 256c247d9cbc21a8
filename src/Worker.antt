-- ===== src/Worker.antt =====
-- bf_worker: the worker process that fixes one bug.
pub mod Budget
pub mod Graph
pub mod Daemon
pub mod TransientRetry
pub mod ApplyPatch
pub mod Usage
pub mod StepCheckpoint
pub mod Ledger
pub mod Resume
pub mod Guards
mod Tests
mod RetryTests
mod PatchTests
mod DaemonTests
mod GuardTests
mod CheckpointTests
mod ResumeTests
