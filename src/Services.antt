-- ===== src/Services.antt =====
-- The operator station's services: 2identify_operador/app/services.
pub mod Sessions
pub mod SafetyState
