-- ===== src/Vision/Tracking.antt =====
-- 2identify_operador/app/vision/ppe/tracking.py: the association of boxes to tracks.
pub mod Defs
pub mod Greedy
pub mod Matching
pub mod Tracker
pub mod Ages
pub mod Added
pub mod Sound
mod Examples
