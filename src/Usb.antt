-- ===== src/Usb.antt =====
-- src/usb.c: the USB devices, through libusb.
pub mod State
pub mod Transfer
pub mod Getters
pub mod Callbacks
pub mod Disconnect
pub mod Serial
pub mod Configure
pub mod Setup
pub mod Mode
pub mod Discover
