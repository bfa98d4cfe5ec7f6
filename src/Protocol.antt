-- ===== src/Protocol.antt =====
-- The wire protocol: protocol/chunk.go, protocol/content.go and protocol/control.go.
pub mod Decimal
pub mod Chunk
pub mod Content
mod Examples
