-- ===== src/Nornir/Daemon.antt =====
-- The daemon that claims and runs jobs (nornir/src/nornir/main.py), over the client's calls.
mod Defs
pub mod Calls
pub mod Upload
mod Execute
pub mod Verdict
pub mod Delivered
mod Oldest
pub mod Turn
mod Main
mod Examples
unfoldable pub use Defs.{
  periodic_job_heartbeat, report, after_upload, after_training, execute_job, claim_first,
  claim_and_run,
}
pub use Defs.*
pub use Main.*
