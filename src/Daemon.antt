-- ===== src/Daemon.antt =====
-- The daemon's jobs, lantern_cli/src/daemon/.
pub mod Clients
pub mod IndexJobs
pub mod Queue
pub mod Stream
pub mod Targets
mod Tests
