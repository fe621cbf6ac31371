-- ===== src/Server/Floor.antt =====
-- The retained floor (internal/server/db/workspace.go).
mod Minimum
mod Reset
pub use Minimum.*
pub use Reset.*
