-- ===== src/Client/Snapshots.antt =====
-- internal/client/daemon/snapshot_apply.go: starting a root from a snapshot.
mod Defs
mod Entries
mod Kept
unfoldable pub use Defs.*
unfoldable pub use Entries.*
pub use Kept.*
