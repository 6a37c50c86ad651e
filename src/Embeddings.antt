-- ===== src/Embeddings.antt =====
-- Embedding generation through an HTTP service, lantern_cli/src/embeddings/core/.
pub mod OpenAi
pub mod Http
pub mod Cohere
pub mod Driver
pub mod Ort
mod Tests
