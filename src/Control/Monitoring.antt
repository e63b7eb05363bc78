-- ===== src/Control/Monitoring.antt =====
-- 2identify_operador/app/controllers/active_ppe_monitoring_controller.py: the alerts of a session.
pub mod Defs
pub mod Slots
pub mod Merged
pub mod Watch
mod Examples
