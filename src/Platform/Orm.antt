-- ===== src/Platform/Orm.antt =====
-- platform/orm.go and `GetDb` of platform/db.go: the operations on strings, sets, lists, maps and
-- stored objects. Each is a function of the client, of the prefix that `GetDb` gives with it, and
-- of the key.
pub mod Time
pub mod Keys
pub mod Sets
pub mod Lists
pub mod Maps
pub mod SortedSets
pub mod SortedLaws
pub mod Objects
pub mod Scan
pub mod Refinement
pub mod Laws
pub mod Contract
pub mod MapLaws
pub mod ListLaws
