-- ===== src/Client/Applier.antt =====
-- internal/client/applier/applier.go: what a device does with an event of another one.
mod Defs
mod Events
mod Targets
mod Applied
unfoldable pub use Defs.*
unfoldable pub use Events.*
pub use Targets.*
pub use Applied.*
