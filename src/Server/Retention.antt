-- ===== src/Server/Retention.antt =====
-- What clients at or above the retained floor see while old events are pruned.
mod Window
mod Loops
mod Fetched
mod Invisible
pub use Window.*
pub use Loops.*
pub use Fetched.*
pub use Invisible.*
