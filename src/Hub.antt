-- ===== src/Hub.antt =====
-- internal/server/hub/hub.go: the subscribers of the events of each workspace.
mod Defs
mod Numbered
mod Joined
mod Apart
mod Groups
mod Published
unfoldable pub use Defs.*
pub use Numbered.*
pub use Joined.*
pub use Apart.*
pub use Groups.*
pub use Published.*
