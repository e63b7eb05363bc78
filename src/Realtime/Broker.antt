-- ===== src/Realtime/Broker.antt =====
-- 2identify_api/app/realtime/broker.py: `InMemoryRealtimeEventBroker`.
pub mod Defs
pub mod Delivery
pub mod Bounds
pub mod Runs
mod Examples
