-- ===== src/Engine/Alerts.antt =====
-- 2identify_operador/app/engine/alert.py: debounce, deduplication and cooldown of local alerts.
pub mod Defs
pub mod Cycle
pub mod Spec
pub mod Step
pub mod Tracked
pub mod Loops
pub mod Observe
pub mod Normalize
pub mod Theorems
pub mod History
pub mod Debounce
pub mod Lifecycle
pub mod Refusals
mod Samples
mod Examples
