-- ===== src/Dlc.antt =====
-- The crate dlc: fees, funding transactions, contract execution transactions and refunds.
pub mod Types
pub mod Util
pub mod Fees
pub mod Fund
pub mod Cets
pub mod Contract
pub mod Channel
mod Tests
