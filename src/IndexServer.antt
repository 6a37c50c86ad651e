-- ===== src/IndexServer.antt =====
-- The external indexing server, lantern_cli/src/external_index/server.rs.
pub mod Protocol
pub mod Rows
pub mod Options
pub mod Workers
pub mod Session
pub mod Status
mod Samples
mod Tests
mod SessionTests
