-- ===== src/Control/Inference.antt =====
-- 2identify_operador/app/controllers/ppe_inference_controller.py: the release of an operation.
pub mod Defs
pub mod Invariant
pub mod Release
pub mod Slots
pub mod Total
