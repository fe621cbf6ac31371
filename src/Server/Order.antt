-- ===== src/Server/Order.antt =====
-- The order of the event log: sequence numbers fall strictly from the newest row to the oldest and
-- are below the counter, and a workspace has one row.
mod Log
mod Submitted
mod Pruned
mod Others
pub use Log.*
pub use Submitted.*
pub use Pruned.*
pub use Others.*
