-- ===== src/Tests.antt =====
-- Concrete runs of the model, and the properties at concrete inputs.
mod Data
mod Server
mod Access
mod Api
mod Client
mod Device
mod Synced
mod Restarted
