-- ===== src/Command.antt =====
-- The command line: cmd/*.go.
mod Examples
pub mod Db
