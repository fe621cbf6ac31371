-- ===== src/Server/Refs.antt =====
-- Reference counts of objects: what `objects.ref_count` is held to by the rows that refer to an
-- object, over every operation of internal/server/db.
mod Counts
mod Uploads
mod Submit
mod Snapshot
mod Pruning
mod Purging
pub use Counts.*
pub use Uploads.*
pub use Submit.*
pub use Snapshot.*
pub use Pruning.*
pub use Purging.*
