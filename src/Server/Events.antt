-- ===== src/Server/Events.antt =====
-- internal/server/db/events.go: the event log of a workspace.
mod Checks
mod Writes
mod Submit
mod Fetch
unfoldable pub use Checks.*
unfoldable pub use Writes.*
unfoldable pub use Submit.*
unfoldable pub use Fetch.*
