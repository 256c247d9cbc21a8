-- ===== src/Orchestrator.antt =====
-- orchestrator: takes webhook events off a stream, runs one worker per bug, and keeps the workers
-- alive.
pub mod Registry
pub mod Router
pub mod Spawner
pub mod Consumer
pub mod DaemonMonitor
pub mod Dispatcher
pub mod Monitor
pub mod Parser
pub mod Handler
mod Tests
mod DispatchTests
mod StreamTests
mod EventTests
