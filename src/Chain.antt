-- ===== src/Chain.antt =====
-- The chain in the tables: packages/core/src/services/chain-sync.ts and the statements that it uses.
pub mod Ledger
pub mod Tables
pub mod Ingest
pub mod Sync
pub mod Confirm
