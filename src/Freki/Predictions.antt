-- ===== src/Freki/Predictions.antt =====
-- The current prediction: freki/src/freki/routers/predictions.py.
mod Defs
pub mod Stream
mod Examples
pub use Defs.*
