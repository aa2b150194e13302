-- ===== src/Preflight.antt =====
-- The worker of src/preflight.c, which pairs a new device before it is shown to the clients.
pub mod State
pub mod Lockdown
pub mod Version
pub mod Callback
pub mod Worker
mod Halting
mod Steps
pub mod Ending
pub mod Waiting
