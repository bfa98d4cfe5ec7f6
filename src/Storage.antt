-- ===== src/Storage.antt =====
-- The stored objects of the server: storage/*.go.
pub mod Types
pub mod Profile
pub mod Conversation
pub mod Users
pub mod Client
pub mod Sessions
pub mod Transcripts
pub mod Handoff
pub mod Sealed
pub mod Queue
pub mod Samples
mod Examples
