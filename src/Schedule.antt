-- ===== src/Schedule.antt =====
-- Scheduled payments: packages/db/src/repositories/planning.ts and
-- packages/core/src/services/scheduler.ts.
pub mod Payments
pub mod Execute
