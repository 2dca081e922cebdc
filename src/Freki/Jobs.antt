-- ===== src/Freki/Jobs.antt =====
-- The training-job queue: freki/src/freki/routers/training_jobs.py and orphan_reaper.py over the
-- table of mimir/src/csi_models/models.py. A table is the list of its rows; a statement is one step.
mod Defs
mod Handlers
pub mod Table
pub mod Invariant
pub mod Progress
pub mod Lifecycle
pub mod Replies
pub mod Ownership
pub mod Reports
pub mod Reaper
pub mod Create
mod Examples
unfoldable pub use Handlers.{update_returning, claim_job, heartbeat_job, complete_job, fail_job}
pub use Defs.*
pub use Handlers.*
