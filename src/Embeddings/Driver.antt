-- ===== src/Embeddings/Driver.antt =====
-- From the rows of a table to their embeddings, lantern_cli/src/embeddings/mod.rs.
pub mod Records
pub mod Worker
pub mod Defaults
pub mod Exporter
pub mod Pipeline
mod Tests
