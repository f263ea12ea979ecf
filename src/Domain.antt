-- ===== src/Domain.antt =====
-- The domain's enumerations, error codes and state machines: packages/shared/src/domain and
-- packages/shared/src/errors.ts.
pub mod Enums
pub mod StateMachines
