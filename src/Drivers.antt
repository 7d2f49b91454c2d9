-- ===== src/Drivers.antt =====
-- The drivers for hardware, over the libraries of their vendors, and what these drivers share.
pub mod Action
pub mod Queues
pub mod Channels
pub mod MasterRead
pub mod Pcan
pub mod TsMaster
pub mod Vector
pub mod Toomoss
pub mod Elins
