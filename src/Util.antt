-- ===== src/Util.antt =====
-- Small helpers that every component uses: packages/shared/src/util.
pub mod Keys
