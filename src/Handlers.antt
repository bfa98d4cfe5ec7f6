-- ===== src/Handlers.antt =====
-- The HTTP handlers of handlers/.
mod Samples
mod Examples
pub mod Http
pub mod Auth
pub mod Launch
pub mod Profile
pub mod Session
pub mod Conversation
pub mod Routes
