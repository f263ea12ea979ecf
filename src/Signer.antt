-- ===== src/Signer.antt =====
-- The signing service: apps/signer/src/policy.ts, and the handler of a signing request in
-- apps/signer/src/index.ts.
pub mod Errors
pub mod Requests
pub mod Spending
