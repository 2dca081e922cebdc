-- ===== src/Mimir/Features.antt =====
-- The feature vector of a window: mimir/src/csi_models/features.py.
mod Defs
pub mod Shape
pub mod Used
mod Examples
unfoldable pub use Defs.{apply_stats, extract_features}
pub use Defs.*
