-- ===== src/Client.antt =====
-- internal/client: what a device keeps, sends and does with what it receives.
pub mod State
pub mod World
pub mod Applier
pub mod Daemon
pub mod Uploader
pub mod Submit
pub mod Snapshots
pub mod Bootstrap
