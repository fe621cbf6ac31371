-- ===== src/Server/Isolation.antt =====
-- A purge of one workspace (internal/server/db/purge.go) deletes all of it, and shows to no other.
mod Rest
mod Others
mod Gone
pub use Others.*
pub use Gone.*
