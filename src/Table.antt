-- ===== src/Table.antt =====
-- Database tables as lists of rows, with the statements that the server's SQL is made of.
mod Defs
mod Laws
mod Keys
mod Overwrite
unfoldable pub use Defs.*
pub use Laws.*
pub use Keys.*
pub use Overwrite.*
