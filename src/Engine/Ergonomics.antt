-- ===== src/Engine/Ergonomics.antt =====
-- 2identify_operador/app/engine/ergonomics.py: postures of a frame that are an ergonomic risk.
pub mod Defs
pub mod Evaluate
pub mod Screenings
pub mod Keys
pub mod Merge
pub mod Frame
mod Examples
