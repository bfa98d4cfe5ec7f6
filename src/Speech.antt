-- ===== src/Speech.antt =====
-- Speech for what is whispered: speech/*.go.
mod Examples
pub mod Resemble
pub mod Manager
