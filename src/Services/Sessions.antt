-- ===== src/Services/Sessions.antt =====
-- 2identify_operador/app/services/work_session_service.py: the one work session of a station.
pub mod Defs
pub mod Laws
pub mod Lifecycle
mod Examples
