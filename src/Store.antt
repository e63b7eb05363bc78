-- ===== src/Store.antt =====
-- The tables of the API.
pub mod Alerts
pub mod Lifecycle
