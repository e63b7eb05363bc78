-- ===== src/Engine/Safety.antt =====
-- 2identify_operador/app/engine/ppe_safety.py: the PPE gate of an operation.
pub mod Defs
pub mod Laws
pub mod Gate
mod Examples
