-- ===== src/Control.antt =====
-- Controllers of the operator application, 2identify_operador/app/controllers.
pub mod Inference
pub mod Start
pub mod Monitoring
mod Examples
