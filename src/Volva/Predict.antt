-- ===== src/Volva/Predict.antt =====
-- The inference loop: volva/src/volva/predict.py.
mod Defs
pub mod Loop
pub mod Votes
pub mod Rooms
pub mod Bounds
mod Examples
pub use Defs.*
