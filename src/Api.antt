-- ===== src/Api.antt =====
-- internal/server/api: what a client is answered, and what a request does to the database.
mod Replies
mod Login
mod Requests
mod Proved
mod Replayed
mod Bootstrapped
mod Limits
pub use Replies.*
unfoldable pub use Login.*
unfoldable pub use Requests.*
pub use Proved.*
pub use Replayed.*
pub use Bootstrapped.*
pub use Limits.*
