-- ===== src/Store/Alerts.antt =====
-- 2identify_api/app/repositories/safety_alert_repository.py: `SafetyAlertRepository`.
pub mod Defs
pub mod Laws
mod Examples
