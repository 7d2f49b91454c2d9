-- ===== src/Tests.antt =====
-- Concrete runs, and the theorems at concrete inputs.
mod Data
mod Transport
mod Nodes
mod Bus
mod Devices
mod Ports
mod Fifo
mod Adapters
