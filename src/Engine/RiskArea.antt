-- ===== src/Engine/RiskArea.antt =====
-- 2identify_operador/app/engine/risk_area.py: people in a configured risk area.
pub mod Defs
pub mod Points
pub mod People
mod Examples
