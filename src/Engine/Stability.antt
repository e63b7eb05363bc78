-- ===== src/Engine/Stability.antt =====
-- 2identify_operador/app/engine/ppe_stability.py: PPE evidence over a window of frames.
pub mod Defs
pub mod Window
pub mod Decisions
pub mod Laws
pub mod Reset
mod Examples
