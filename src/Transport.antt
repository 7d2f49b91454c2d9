-- ===== src/Transport.antt =====
-- The LIN transport protocol of tplin/transport.go and its constants in tplin/adapter.go.
pub mod Config
pub mod State
pub mod Frames
pub mod Assembly
pub mod Queues
pub mod Execute
pub mod RoundTrip
pub mod Exchange
