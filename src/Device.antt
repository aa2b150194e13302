-- ===== src/Device.antt =====
-- src/device.c: the devices behind the USB multiplexer and the TCP-like connections to them.
pub mod State
pub mod Window
pub mod Ports
pub mod Send
pub mod Find
pub mod Teardown
pub mod Listing
pub mod Connection
pub mod Input
pub mod Packet
pub mod Data
pub mod Lifecycle
pub mod Shutdown
