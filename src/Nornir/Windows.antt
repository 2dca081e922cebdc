-- ===== src/Nornir/Windows.antt =====
-- The cutting of labelled rows into training windows: nornir/src/nornir/train.py.
mod Defs
pub mod Stream
pub mod Homogeneous
pub mod Collect
mod Examples
unfoldable pub use Defs.{window_step, raw_windows, extracted, collect_windows}
pub use Defs.*
