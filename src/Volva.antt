-- ===== src/Volva.antt =====
-- Volva, live inference (volva/src/volva).
pub mod Predict
pub mod Loader
