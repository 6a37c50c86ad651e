-- ===== src/Sql/Tests.antt =====
-- The theorems on lantern_cli/src/utils/mod.rs at concrete inputs.
