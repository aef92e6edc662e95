-- ===== src/Kormir.antt =====
-- kormir: an oracle that announces events, signs their outcomes and keeps both in a storage.
pub mod Messages
pub mod Events
pub mod Storage
pub mod Oracle
mod Tests
