-- ===== src/Domain.antt =====
-- The operator station's domain values: 2identify_operador/app/domain.
pub mod Alert
pub mod WorkSession
pub mod Operation
pub mod RiskArea
