-- ===== src/Manager.antt =====
-- The crate ddk-manager: what it keeps of contracts and channels.
pub mod Monitor
pub mod Periodic
pub mod Store
pub mod Closing
pub mod Contract
pub mod Diagram
pub mod Environment
pub mod Handlers
pub mod Input
mod Tests
