-- ===== src/Server.antt =====
-- The server (internal/server): the database and what is built on it.
pub mod Schema
pub mod Errors
pub mod Objects
pub mod Workspaces
pub mod Events
pub mod Snapshots
pub mod Maintenance
pub mod Purge
pub mod Sessions
pub mod Metrics
pub mod Accepted
pub mod Refs
pub mod Order
pub mod Retention
pub mod Unsynced
pub mod History
pub mod Conflicts
pub mod Floor
pub mod Paging
pub mod Isolation
pub mod Access
