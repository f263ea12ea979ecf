-- ===== src/Money.antt =====
-- Amounts of money: packages/shared/src/money.
pub mod FixedPoint
pub mod Decimal
pub mod Fiat
pub mod Token
pub mod Rate
