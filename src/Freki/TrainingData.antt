-- ===== src/Freki/TrainingData.antt =====
-- The paged training data: freki/src/freki/routers/training_data.py, and `iter_training_data` of
-- nornir/src/nornir/freki_client.py, which reads all the pages.
mod Defs
pub mod Cursor
pub mod Order
pub mod Pages
mod Examples
pub use Defs.*
