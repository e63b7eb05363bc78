-- ===== src/Services/SafetyState.antt =====
-- 2identify_operador/app/services/safety_state_service.py: what the operator reports to the API.
pub mod Defs
pub mod Laws
mod Examples
