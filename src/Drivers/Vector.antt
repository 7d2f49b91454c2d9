-- ===== src/Drivers/Vector.antt =====
-- driver/vector.go: the driver on Vector's XL library.
pub mod Device
pub mod Config
pub mod Opening
pub mod Traffic
pub mod Sending
pub mod Reading
pub mod Resolved
pub mod Ready
pub mod Tables
