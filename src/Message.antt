-- ===== src/Message.antt =====
-- src/message: messages that are edited in place.
pub mod Buffer
pub mod Create
pub mod Cursor
pub mod Field
pub mod Journal
pub mod Message
pub mod Nested
pub mod Oneof
pub mod Part
pub mod Run
mod Examples
