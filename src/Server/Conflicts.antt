-- ===== src/Server/Conflicts.antt =====
-- Optimistic concurrency of `SubmitEvent` (internal/server/db/events.go): what the writes of an
-- accepted content event leave for the checks of the next one.
mod Written
mod Paths
pub use Written.*
pub use Paths.*
