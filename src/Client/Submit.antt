-- ===== src/Client/Submit.antt =====
-- internal/client/connector/connector.go and internal/client/daemon/daemon.go: what a device makes of
-- a refused submission.
mod Defs
mod Refused
unfoldable pub use Defs.*
pub use Refused.*
