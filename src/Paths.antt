-- ===== src/Paths.antt =====
-- internal/common/paths/paths.go: which paths a remote device may name, and where they lead.
mod Defs
mod Inside
mod Overlaps
unfoldable pub use Defs.*
pub use Inside.*
pub use Overlaps.*
