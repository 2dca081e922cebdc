-- ===== src/Nornir/Client.antt =====
-- The HTTP client of the training daemon (nornir/src/nornir/freki_client.py), and Freki's endpoints
-- as the server that it calls. The paging of training data is in Freki/TrainingData.
mod Defs
mod Endpoints
unfoldable pub use Defs.{
  list_queued_jobs, claim_job, heartbeat_job, complete_job, fail_job, upload_model,
}
unfoldable pub use Endpoints.{list_jobs}
pub use Defs.*
pub use Endpoints.*
