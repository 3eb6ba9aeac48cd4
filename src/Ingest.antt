-- ===== src/Ingest.antt =====
-- internal/ingest: the pipeline from a decoded JSON document to the store.
pub mod Decode
pub mod Raw
pub mod Pipeline
pub mod Configured
pub mod Rounds
pub mod Accounting
pub mod Secrets
pub mod Memory
pub mod Entries
pub mod Deletion
