-- ===== src/Nornir/Daemon/Defs.antt =====
-- The coroutines of main.py. Those that wait for a timer are given how often it runs out.
use mathlib.Core.List.{reverse}
use grimnir.Base.{
  ℕ, zero, suc, Bool, true, false, Option, none, some, List, [], ◌∷◌, ◌++◌, Str, codes, length,
}
use grimnir.Freki.Models.{UploadForm}
use grimnir.Freki.Jobs.{TrainingJob}
use grimnir.Nornir.Client.{
  Outcome, done, freki_error, exception, message, ClaimedJob, Server, FrekiClient, list_queued_jobs,
  claim_job, heartbeat_job, complete_job, fail_job, upload_model,
}

-- How a coroutine ends: it returns, or an exception that it does not catch leaves it.
pub data Ended : Type 0 where
  returned escaped : Ended

-- The Prometheus counters of the daemon, and the gauge of the queue.
pub record Metrics : Type 0 where
  pub jobs_claimed : ℕ
  pub jobs_completed : ℕ
  pub failed_train : ℕ
  pub failed_upload : ℕ
  pub failed_report : ℕ
  pub queue_depth : ℕ

-- What `run_job` comes to: the model's bytes with the texts of its metrics and feature configuration,
-- or an exception with its text.
pub data Trained : Type 0 where
  trained : List ℕ → Str → Str → Trained
  train_error : Str → Trained

-- How many heartbeats the timer of `_periodic_job_heartbeat` sends off while `run_job` works, while
-- the upload waits, while the report waits, and while the task is being joined.
pub record Ticks : Type 0 where
  pub training : ℕ
  pub uploading : ℕ
  pub reporting : ℕ
  pub joining : ℕ

-- `jobs_failed.labels(stage="report").inc()`
abbrev pub report_failed : Metrics → Metrics
report_failed m = record m { failed_report = suc m.failed_report }

-- The `finally` block: `await hb_task` raises what the task raised.
abbrev pub joined : Ended → Ended → Ended
joined escaped body = escaped
joined returned body = body

module _ {W : Type 0} where
  -- A heartbeat in the task: only FrekiError is caught, anything else ends the task.
  abbrev pub caught : Outcome (Unit {0}) × W → Ended × W
  caught (done _, w) = (returned, w)
  caught (freki_error _, w) = (returned, w)
  caught (exception, w) = (escaped, w)

  -- The end of a report: the counters on success, after FrekiError, and when an exception escapes.
  abbrev pub after_report :
      Metrics → Metrics → Metrics → Ended × W → Outcome (Unit {0}) → Ended × Metrics × W
  after_report good bad lost (task, w) (done _) = (joined task returned, good, w)
  after_report good bad lost (task, w) (freki_error _) = (joined task returned, bad, w)
  after_report good bad lost (task, w) exception = (joined task escaped, lost, w)

  -- The answer of `_claim_and_run` after a run, none when an exception escapes.
  abbrev pub ran : Ended × Metrics × W → Option Bool × Metrics × W
  ran (returned, m, w) = (some true, m, w)
  ran (escaped, m, w) = (none, m, w)

module _ {S O W : Type 0} (server : Server S O W) (str_int : ℕ → Str) (client : FrekiClient)
    (daemon_id : ℕ) where
  -- `n` heartbeats of the task, which stays ended once it is.
  unfoldable pub periodic_job_heartbeat : ClaimedJob S → ℕ → Ended × W → Ended × W
  periodic_job_heartbeat job zero task = task
  periodic_job_heartbeat job (suc n) (escaped, w) = (escaped, w)
  periodic_job_heartbeat job (suc n) (returned, w) =
      periodic_job_heartbeat job n
        (caught (heartbeat_job server str_int client job.id daemon_id job.claim_token w))

  -- A report as the last call of a branch, with the heartbeats before it and until the join.
  unfoldable pub report :
      ClaimedJob S
      → Ticks
      → (W → Outcome (Unit {0}) × W)
      → Metrics
      → Metrics
      → Metrics
      → Ended × W
      → Ended × Metrics × W
  unfolding periodic_job_heartbeat
  report job ticks call good bad lost task =
      let (task', w) = periodic_job_heartbeat job ticks.reporting task in
      let (outcome, w') = call w in
      after_report good bad lost (periodic_job_heartbeat job ticks.joining (task', w')) outcome

  abbrev pub fail_call : ClaimedJob S → Str → W → Outcome (Unit {0}) × W
  fail_call job error = fail_job server str_int client job.id daemon_id job.claim_token error

  abbrev pub complete_call : ClaimedJob S → W → Outcome (Unit {0}) × W
  complete_call job = complete_job server str_int client job.id daemon_id job.claim_token

  -- What follows the upload.
  unfoldable pub after_upload :
      ClaimedJob S → Ticks → Metrics → Ended → Outcome O × W → Ended × Metrics × W
  unfolding report periodic_job_heartbeat
  after_upload job ticks m task (done _, w) =
      report job ticks (complete_call job) (record m { jobs_completed = suc m.jobs_completed })
        (report_failed m) m (task, w)
  after_upload job ticks m task (freki_error e, w) =
      let m' = record m { failed_upload = suc m.failed_upload } in
      report job ticks (fail_call job (codes "model upload error: " ++ message str_int e)) m'
        (report_failed m') m' (task, w)
  after_upload job ticks m task (exception, w) =
      let (task', w') = periodic_job_heartbeat job ticks.joining (task, w) in
      (joined task' escaped, m, w')

  module _ (daemon_name : Str) where
    -- `name=f"job-{job_id}-{DAEMON_NAME}"` and the rest of the form.
    abbrev pub model_form : ClaimedJob S → List ℕ → Str → Str → UploadForm
    model_form job bytes metrics feature_config = record {
      name = codes "job-" ++ str_int job.id ++ codes "-" ++ daemon_name;
      metrics = metrics;
      feature_config = feature_config;
      training_job_id = some job.id;
      file = bytes;
    }

    -- What follows the training.
    unfoldable pub after_training :
        ClaimedJob S → Ticks → Metrics → Trained → Ended × W → Ended × Metrics × W
    unfolding after_upload report periodic_job_heartbeat
    after_training job ticks m (train_error text) task =
        let m' = record m { failed_train = suc m.failed_train } in
        report job ticks (fail_call job (codes "training error: " ++ text)) m' (report_failed m') m'
          task
    after_training job ticks m (trained bytes metrics feature_config) task =
        let (task', w) = periodic_job_heartbeat job ticks.uploading task in
        after_upload job ticks m task'
          (upload_model server str_int client (model_form job bytes metrics feature_config) w)

    unfoldable pub execute_job : ClaimedJob S → Ticks → Trained → Metrics → W → Ended × Metrics × W
    unfolding after_training after_upload report periodic_job_heartbeat
    execute_job job ticks result m w =
        after_training job ticks m result (periodic_job_heartbeat job ticks.training (returned, w))

    -- `run_job` on a job, with what the server has to read.
    module _ (run_job : ClaimedJob S → W → Trained) (ticks : Ticks) where
      -- One turn of the loop over the queued jobs: `next` goes on with the others.
      abbrev pub after_claim :
          (W → Option Bool × Metrics × W)
          → Metrics
          → Outcome (Option (ClaimedJob S)) × W
          → Option Bool × Metrics × W
      after_claim next m (done none, w) = next w
      after_claim next m (freki_error _, w) = next w
      after_claim next m (exception, w) = (none, m, w)
      after_claim next m (done (some job), w) =
          ran (
            execute_job job ticks (run_job job w) (record m { jobs_claimed = suc m.jobs_claimed })
              w)

      unfoldable pub claim_first : List (TrainingJob S) → Metrics → W → Option Bool × Metrics × W
      unfolding execute_job after_training after_upload report periodic_job_heartbeat
      claim_first [] m w = (some false, m, w)
      claim_first (j ∷ js) m w =
          let next = claim_first js m in
          after_claim next m (claim_job server str_int client j.id daemon_id w)

      abbrev pub after_list :
          Metrics → Outcome (List (TrainingJob S)) × W → Option Bool × Metrics × W
      after_list m (freki_error _, w) = (some false, m, w)
      after_list m (exception, w) = (none, m, w)
      after_list m (done queued, w) =
          claim_first (reverse queued) (record m { queue_depth = length queued }) w

      -- The answer, or none when an exception escapes.
      unfoldable pub claim_and_run : Metrics → W → Option Bool × Metrics × W
      claim_and_run m w = after_list m (list_queued_jobs server str_int client 50 w)
