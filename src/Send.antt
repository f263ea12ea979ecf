-- ===== src/Send.antt =====
-- Outgoing transfers: packages/core/src/services/send.ts over packages/db/src/repositories/send.ts.
pub mod Store
pub mod Quote
pub mod Execute
