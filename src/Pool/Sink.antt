-- ===== src/Pool/Sink.antt =====
-- services/consumer_pool/app/sink.py: inserting a batch, isolating bad records, dead-lettering.
-- A call is a step of `Exec (Sink …)`; the Prometheus metrics are fields of the state.
pub mod State
pub mod Write
pub mod Keeps
pub mod Covers
pub mod Lands
pub mod Stored
pub mod Returns
