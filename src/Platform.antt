-- ===== src/Platform.antt =====
-- The storage layer of platform/orm.go over a Redis client.
pub mod Redis
pub mod Orm
pub mod Cache
pub mod Config
pub mod Aws
pub mod Db
mod Examples
