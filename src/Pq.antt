-- ===== src/Pq.antt =====
-- Product quantization, lantern_cli/src/pq/.
pub mod Quantization
pub mod Ranges
pub mod Progress
pub mod Driver
mod Tests
