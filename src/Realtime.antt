-- ===== src/Realtime.antt =====
-- The realtime side of the API.
pub mod Broker
pub mod Aggregator
