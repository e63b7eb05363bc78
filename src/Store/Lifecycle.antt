-- ===== src/Store/Lifecycle.antt =====
-- 2identify_api/app/repositories/admin_alert_repository.py: `AdminAlertRepository`.
pub mod Defs
pub mod Laws
mod Examples
