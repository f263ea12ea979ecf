-- ===== src/Evm.antt =====
-- Encodings of EVM chains: packages/blockchain/src/evm.
pub mod Hex
pub mod Rlp
pub mod Transaction
