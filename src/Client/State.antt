-- ===== src/Client/State.antt =====
-- internal/client/state/db.go: the database of a device.
mod Order
mod Schema
mod Nulls
mod Workspace
mod Roots
mod Entries
mod Pending
mod Ignores
mod Warnings
mod RoundTrip
mod Mapped
mod Tasks
mod Queue
mod Retry
unfoldable pub use Schema.*
unfoldable pub use Nulls.*
unfoldable pub use Workspace.*
unfoldable pub use Roots.*
unfoldable pub use Entries.*
unfoldable pub use Pending.*
unfoldable pub use Ignores.*
unfoldable pub use Warnings.*
pub use RoundTrip.*
pub use Mapped.*
pub use Tasks.*
pub use Queue.*
pub use Retry.*
