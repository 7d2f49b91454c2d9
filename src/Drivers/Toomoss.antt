-- ===== src/Drivers/Toomoss.antt =====
-- driver/toomoss.go: the driver for the USB adapters of Toomoss, on a 64-bit system.
pub mod Device
pub mod Usb
pub mod Lifetime
pub mod Traffic
pub mod Session
pub mod Reading
pub mod Batch
pub mod Calls
pub mod Kept
pub mod Created
pub mod Used
pub mod Host
