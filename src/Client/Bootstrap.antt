-- ===== src/Client/Bootstrap.antt =====
-- internal/client/daemon/daemon.go: `bootstrap`, a device that starts again from the server's roots, and
-- `bootstrapOrCatchUp`.
mod Defs
mod Removed
mod Resumed
mod Sync
mod Ended
mod Passed
mod Floored
unfoldable pub use Defs.*
unfoldable pub use Sync.*
pub use Removed.*
pub use Resumed.*
pub use Ended.*
pub use Passed.*
pub use Floored.*
