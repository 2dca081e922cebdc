-- ===== src/Freki/Labels.antt =====
-- The labels of time windows and what they do to the samples: freki/src/freki/routers/labels.py.
mod Defs
pub mod Sorted
pub mod Delete
pub mod Mirror
mod Examples
pub use Defs.*
