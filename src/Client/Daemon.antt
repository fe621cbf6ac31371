-- ===== src/Client/Daemon.antt =====
-- internal/client/daemon: the loop that keeps a device in step with the server.
mod Roots
mod Events
mod Ignored
mod CatchUp
mod Consumed
mod Cursor
mod Rounds
mod Replayed
unfoldable pub use Roots.*
unfoldable pub use Events.*
unfoldable pub use Ignored.*
unfoldable pub use CatchUp.*
pub use Consumed.*
pub use Cursor.*
pub use Rounds.*
pub use Replayed.*
