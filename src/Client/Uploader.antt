-- ===== src/Client/Uploader.antt =====
-- internal/client/uploader/uploader.go: a file that is sent in chunks.
mod Defs
mod Fetched
unfoldable pub use Defs.*
pub use Fetched.*
