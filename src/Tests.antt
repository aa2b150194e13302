-- ===== src/Tests.antt =====
-- The theorems at concrete inputs.
mod Fixture
mod Lawful
mod Transport
mod Lifecycle
mod Stream
mod Numbers
mod Clients
mod Configuration
mod Usb
mod Preflight
mod Startup
mod Log
