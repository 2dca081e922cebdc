-- ===== src/Nornir/Daemon/Verdict.antt =====
-- What becomes of a claimed job that `_execute_job` runs.
use grimnir.Base.{Reply, ℕ, suc, ◌≡◌, refl, ◌⊎◌, inl, inr, false, List, Str}
use grimnir.Freki.Jobs.{TrainingJob, JobControlBody, is_live}
use grimnir.Freki.Jobs.Replies.{Holds}
use grimnir.Freki.Jobs.Reports.{Row, Passes}
use grimnir.Freki.Models.{ModelOut}
use grimnir.Nornir.Client.{
  ClaimedJob, Outcome, done, freki_error, exception, FrekiClient, Backend, Fate, Setting, freki,
  upload_model,
}
use grimnir.Nornir.Daemon.Defs.{
  Ended, returned, Metrics, Trained, trained, train_error, Ticks, report_failed,
  periodic_job_heartbeat, fail_call, complete_call, model_form, report, after_upload,
  after_training, execute_job,
}
use grimnir.Nornir.Daemon.Calls.{
  Stored, Quiet, Kept, Beats-Holds, Beats-ended, others-State, Completed, FailedWith,
  complete_job-Case, fail_job-Case,
}
use grimnir.Nornir.Daemon.Upload.{endpoint_reply, Uploaded, upload_model-Uploaded}
use grimnir.Nornir.Daemon.Execute.{beats-State, report-Reported}

-- Where a run of a claimed job can end, with the completed jobs counted before and after: the job is
-- still held, it has failed, or it is complete, and then the bytes that the training gave are stored.
pub data Verdict {S J : Type 0} (k : ℕ) (body : JobControlBody) (result : Trained)
    (before after : ℕ) (w : Backend S J) : Type 0 where
  held : Row k (Holds body) w.db → after ≡ before → Verdict k body result before after w
  gave_up :
      (error : Str)
      → Row k (FailedWith error) w.db
      → after ≡ before
      → Verdict k body result before after w
  finished :
      (bytes : List ℕ) (metrics feature_config : Str)
      → result ≡ trained bytes metrics feature_config
      → Row k Completed w.db
      → Stored k bytes w.registry
      → (after ≡ before) ⊎ (after ≡ suc before)
      → Verdict k body result before after w

abbrev pub Ran :
    {S J : Type 0} → ℕ → JobControlBody → Trained → Metrics → Ended × Metrics × Backend S J → Type 0
Ran k body result m (e, m', w) = Verdict k body result m.jobs_completed m'.jobs_completed w

pub Completed-ended : {S : Type 0} (r : TrainingJob S) → Completed r → is_live r.status ≡ false
Completed-ended r e = rw e refl

pub FailedWith-ended :
    {S : Type 0} (error : Str) (r : TrainingJob S) → FailedWith error r → is_live r.status ≡ false
FailedWith-ended error r e = rw (e.0) refl

module _ {S J : Type 0} (setting : Setting S J) (k : ℕ) (str_int : ℕ → Str) (client : FrekiClient)
    (daemon_id : ℕ) (token : Str) (spec : S) (q : Quiet setting k)
    (p : Passes setting.ml_secret client.ml_control_shared_secret
      (record { daemon_id = daemon_id; claim_token = token })) where
  abbrev pub job : ClaimedJob S
  job = record { id = k; spec = spec; claim_token = token }

  abbrev pub body : JobControlBody
  body = record { daemon_id = daemon_id; claim_token = token }

  abbrev pub nothing : Kept setting (λ _. Unit {0})
  nothing n w x = x

  failing-Ran :
      (result : Trained) (error : Str) (ticks : Ticks) (m good bad : Metrics)
      (task : Ended × Backend S J)
      → good.jobs_completed ≡ m.jobs_completed
      → Row k (Holds body) task.1.db
      → Ran k body result m (
          report
            (freki setting)
            str_int
            client
            daemon_id
            job
            ticks
            (fail_call (freki setting) str_int client daemon_id job error)
            good
            bad
            good
            task)
  failing-Ran result error ticks m good bad task same h =
      elim (report-Reported setting k str_int client daemon_id token spec q p (λ _. Unit) nothing
        (FailedWith error)
        (Beats-ended setting k q str_int client daemon_id token p (FailedWith error)
          (FailedWith-ended error))
        ticks good bad good (fail_call (freki setting) str_int client daemon_id job error)
        (fail_job-Case setting k q str_int client daemon_id token p (λ _. Unit) nothing error) task
        (h, tt)) [
          | inl (e, s) ↦ gave_up error s.0 (rw e same)
          | inr (e, inl s) ↦ gave_up error s.0 (rw e same)
          | inr (e, inr s) ↦ held s.0 (rw e same)
        ]

  after_upload-Ran :
      (result : Trained) (bytes : List ℕ) (metrics feature_config : Str)
      → result ≡ trained bytes metrics feature_config
      → (ticks : Ticks) (m : Metrics) (task : Ended) (f : Fate) (w : Backend S J)
      → (x : Outcome (ModelOut J) × Backend S J) (reply : Reply (ModelOut J))
      → Uploaded setting k bytes f w x reply
      → Row k (Holds body) w.db
      → Ran k body result m
          (after_upload (freki setting) str_int client daemon_id job ticks m task x)
  unfolding after_upload
  after_upload-Ran result bytes a b is ticks m task f w (done out, w') reply u h =
      let X = Stored k bytes in
      let kept : Kept setting X = λ n v s. q.stored n v bytes s in
      let counted = record m { jobs_completed = suc m.jobs_completed } in
      let stored = u.stores out refl in
      let row : Row k (Holds body) w'.db = rw (u.same_db) h in
      elim (report-Reported setting k str_int client daemon_id token spec q p X kept Completed
        (Beats-ended setting k q str_int client daemon_id token p Completed Completed-ended) ticks
        counted (report_failed m) m (complete_call (freki setting) str_int client daemon_id job)
        (complete_job-Case setting k q str_int client daemon_id token p X kept) (task, w')
        (row, stored)) [
          | inl (e, s) ↦ finished bytes a b is s.0 s.1 (inr (rw e refl))
          | inr (e, inl s) ↦ finished bytes a b is s.0 s.1 (inl (rw e refl))
          | inr (e, inr s) ↦ held s.0 (rw e refl)
        ]
  after_upload-Ran result bytes a b is ticks m task f w (freki_error e, w') reply u h =
      let row : Row k (Holds body) w'.db = rw (u.same_db) h in
      failing-Ran result _ ticks m _ _ (task, w') refl row
  after_upload-Ran result bytes a b is ticks m task f w (exception, w') reply u h =
      let row : Row k (Holds body) w'.db = rw (u.same_db) h in
      let (last, _) =
        beats-State setting k str_int client daemon_id token spec q p (Holds body) (λ _. Unit)
          (Beats-Holds setting k q str_int client daemon_id token p) nothing ticks.joining
          (task, w') (row, tt) in
      held last refl

  -- The state after the heartbeats of a wait.
  pub beats-held :
      (n : ℕ) (task : Ended × Backend S J)
      → Row k (Holds body) task.1.db
      → Row k
          (Holds body)
          (periodic_job_heartbeat (freki setting) str_int client daemon_id job n task).1.db
  beats-held n task h =
      (beats-State setting k str_int client daemon_id token spec q p (Holds body) (λ _. Unit)
        (Beats-Holds setting k q str_int client daemon_id token p) nothing n task (h, tt)).0

  -- What others do to a held job.
  pub others-held :
      (n : ℕ) (w : Backend S J)
      → Row k (Holds body) w.db
      → Row k (Holds body) (setting.others n w).db
  others-held n w h = (others-State setting k (Holds body) (λ _. Unit) q nothing n w (h, tt)).0

  after_training-Ran :
      (daemon_name : Str) (result : Trained) (ticks : Ticks) (m : Metrics)
      (task : Ended × Backend S J)
      → Row k (Holds body) task.1.db
      → Ran k body result m (
          after_training
            (freki setting)
            str_int
            client
            daemon_id
            daemon_name
            job
            ticks
            m
            result
            task)
  unfolding after_training
  after_training-Ran daemon_name (train_error text) ticks m task h =
      failing-Ran (train_error text) _ ticks m _ _ task refl h
  after_training-Ran daemon_name (trained bytes a b) ticks m task h =
      let (task', w) =
        periodic_job_heartbeat (freki setting) str_int client daemon_id job ticks.uploading task in
      let form = model_form (freki setting) str_int client daemon_id daemon_name job bytes a b in
      after_upload-Ran (trained bytes a b) bytes a b refl ticks m task' (setting.fate w.served)
        (setting.others w.served w) (upload_model (freki setting) str_int client form w)
        (endpoint_reply setting k client form w)
        (upload_model-Uploaded setting k str_int client form w refl)
        (others-held w.served w (beats-held ticks.uploading task h))

  -- In a well-formed table, a daemon that holds a job, passes the secret's guard and has a token of 16
  -- to 255 characters, while others leave the table well formed, the job's row alone and stored models
  -- stored, leaves the job held, failed or complete, whatever requests and responses are lost; complete
  -- only after a training that gave a model whose bytes Freki has stored for the job. The completed jobs
  -- are counted up by one at most, and only if the job is complete.
  pub execute_job-Verdict :
      (daemon_name : Str) (result : Trained) (ticks : Ticks) (m : Metrics) (w : Backend S J)
      → Row k (Holds body) w.db
      → Ran k body result m
          (execute_job (freki setting) str_int client daemon_id daemon_name job ticks result m w)
  unfolding execute_job
  execute_job-Verdict daemon_name result ticks m w h =
      after_training-Ran daemon_name result ticks m _ (beats-held ticks.training (returned, w) h)
