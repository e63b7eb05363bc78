-- ===== src/Realtime/Aggregator.antt =====
-- 2identify_api/app/services/safety_state.py: `SafetyStateAggregator`.
pub mod Defs
pub mod Summary
pub mod Updates
mod Examples
