-- ===== src/Nornir/Train.antt =====
-- The training of one job: nornir/src/nornir/train.py from the rows on.
mod Defs
pub mod Runs
mod Examples
pub use Defs.*
