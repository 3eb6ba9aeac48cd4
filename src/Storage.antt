-- ===== src/Storage.antt =====
-- internal/storage: the stores of evidence.
pub mod Memory
