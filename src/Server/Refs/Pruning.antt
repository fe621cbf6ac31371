-- ===== src/Server/Refs/Pruning.antt =====
-- Reference counts under `Prune` (internal/server/db/maintenance.go).
mod Events
mod Snapshots
mod Objects
pub use Events.*
pub use Snapshots.*
pub use Objects.*
