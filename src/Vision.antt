-- ===== src/Vision.antt =====
-- The operator station's vision code that needs no model: 2identify_operador/app/vision.
pub mod Tracking
pub mod Pose
