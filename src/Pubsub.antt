-- ===== src/Pubsub.antt =====
-- pubsub/interface.go and pubsub/ably.go.
pub mod Interface
pub mod Ably
pub mod Session
pub mod Manager
mod Examples
