-- ===== src/Bm25/Numbers.antt =====
-- The operations on floats that lantern_extras/src/bm25_agg.rs uses; what they compute is theirs.
use lanterndb.Prelude.{ℕ, Bool}

-- A 32-bit integer, as the SQL arguments are.
pub data ℤ : Type 0 where
  pos : ℕ → ℤ
  negsuc : ℕ → ℤ

-- The operations of `f32`.
pub record Floats (F : Type 0) : Type 0 where
  pub add : F → F → F
  pub sub : F → F → F
  pub mul : F → F → F
  pub div : F → F → F
  pub ln : F → F
  pub lt : F → F → Bool
  pub is_nan : F → Bool
  pub of_int : ℤ → F
  pub of_nat : ℕ → F
  pub zero : F
  pub half : F
  pub one : F
