-- ===== src/Lifecycle.antt =====
-- Sessions in progress: lifecycle/session.go.
pub mod Session
pub mod Transcribe
pub mod Sessions
pub mod Ending
mod Examples
pub mod Samples
