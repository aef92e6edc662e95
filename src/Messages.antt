-- ===== src/Messages.antt =====
-- The crate dlc-messages: how a message that is too long for the transport is cut up and put together.
pub mod Segments
pub mod Handler
mod Tests
