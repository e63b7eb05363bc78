-- ===== src/Engine.antt =====
-- The operator station's decision engines: 2identify_operador/app/engine.
pub mod Alerts
pub mod Stability
pub mod Safety
pub mod RiskArea
pub mod Ergonomics
