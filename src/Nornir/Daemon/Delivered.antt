-- ===== src/Nornir/Daemon/Delivered.antt =====
-- A run of a claimed job over a network that delivers every message.
use grimnir.Base.{
  ℕ, suc, ◌≡◌, refl, some, List, take, ◌++◌, Str, codes, subst, sym, Reply, ok, http,
}
use grimnir.Freki.Jobs.{JobControlBody}
use grimnir.Freki.Jobs.Replies.{Holds}
use grimnir.Freki.Jobs.Reports.{Row, Passes}
use grimnir.Freki.Models.{ModelOut}
use grimnir.Nornir.Client.{
  ClaimedJob, Outcome, done, freki_error, exception, FrekiClient, FrekiError, Backend, delivered,
  Setting, freki, upload_model,
}
use grimnir.Nornir.Daemon.Defs.{
  Ended, returned, Metrics, Trained, trained, train_error, Ticks, report_failed,
  periodic_job_heartbeat, report, fail_call, complete_call, model_form, after_upload,
  after_training, execute_job,
}
use grimnir.Nornir.Daemon.Calls.{
  Stored, Quiet, Kept, Beats-ended, Completed, FailedWith, complete_job-Case, fail_job-Case,
}
use grimnir.Nornir.Daemon.Upload.{endpoint_reply, Uploaded, upload_model-Uploaded}
use grimnir.Nornir.Daemon.Execute.{periodic_job_heartbeat-returned, report-delivered}
use grimnir.Nornir.Daemon.Verdict.{Completed-ended, FailedWith-ended, beats-held, others-held}

module _ {S J : Type 0} (setting : Setting S J) (k : ℕ) (str_int : ℕ → Str) (m : Metrics) where
  -- The coroutine returns, the job has failed with the text, and the counters are these.
  abbrev pub Refused : Str → Metrics → Ended × Metrics × Backend S J → Type 0
  Refused error m' (e, n, w) = (e ≡ returned) × (n ≡ m') × Row k (FailedWith error) w.db

  -- The text of a refusal with a status code.
  abbrev pub refusal : ℕ → Str
  refusal c =
      codes "model upload error: POST /api/models → "
      ++ str_int c
      ++ codes ": "
      ++ take 200 (setting.text c)

  -- What a run with a model comes to, by what the endpoint answers to the upload.
  abbrev pub SettledBy : List ℕ → Reply (ModelOut J) → Ended × Metrics × Backend S J → Type 0
  SettledBy bytes (ok out) (e, n, w) =
      (e ≡ returned)
      × (n ≡ record m { jobs_completed = suc m.jobs_completed })
      × Row k Completed w.db
      × Stored k bytes w.registry
  SettledBy bytes (http c) r =
      Refused (refusal c) (record m { failed_upload = suc m.failed_upload }) r

  -- What a run comes to, by what the training came to, where `w` is the state that the upload meets.
  abbrev pub Settled :
      FrekiClient → Str → Trained → Backend S J → Ended × Metrics × Backend S J → Type 0
  Settled client daemon_name (train_error text) w r =
      Refused (codes "training error: " ++ text) (record m { failed_train = suc m.failed_train }) r
  Settled client daemon_name (trained bytes metrics feature_config) w r =
      SettledBy bytes
        (endpoint_reply setting k client
          (record {
            name = codes "job-" ++ str_int k ++ codes "-" ++ daemon_name;
            metrics = metrics;
            feature_config = feature_config;
            training_job_id = some k;
            file = bytes;
          })
          w)
        r

module _ {S J : Type 0} (setting : Setting S J) (k : ℕ) (str_int : ℕ → Str) (client : FrekiClient)
    (daemon_id : ℕ) (token : Str) (spec : S) (q : Quiet setting k)
    (p : Passes setting.ml_secret client.ml_control_shared_secret
      (record { daemon_id = daemon_id; claim_token = token }))
    (all : (n : ℕ) → setting.fate n ≡ delivered) where
  abbrev claimed : ClaimedJob S
  claimed = record { id = k; spec = spec; claim_token = token }

  abbrev holder : JobControlBody
  holder = record { daemon_id = daemon_id; claim_token = token }

  failing-Refused :
      (error : Str) (ticks : Ticks) (m good bad : Metrics) (task : Ended × Backend S J)
      → task.0 ≡ returned
      → Row k (Holds holder) task.1.db
      → Refused setting k str_int m error good (
          report
            (freki setting)
            str_int
            client
            daemon_id
            claimed
            ticks
            (fail_call (freki setting) str_int client daemon_id claimed error)
            good
            bad
            good
            task)
  failing-Refused error ticks m good bad task on h =
      let (e, n, s) =
        report-delivered setting k str_int client daemon_id token spec q p (λ _. Unit) (λ _ _ x. x)
          (FailedWith error)
          (Beats-ended setting k q str_int client daemon_id token p (FailedWith error)
            (FailedWith-ended error))
          ticks good bad good (fail_call (freki setting) str_int client daemon_id claimed error)
          (fail_job-Case setting k q str_int client daemon_id token p (λ _. Unit) (λ _ _ x. x)
            error)
          all task on (h, tt) in
      (e, n, s.0)

  after_upload-Settled :
      (bytes : List ℕ) (ticks : Ticks) (m : Metrics) (task : Ended) (w : Backend S J)
      (x : Outcome (ModelOut J) × Backend S J) (reply : Reply (ModelOut J))
      → task ≡ returned
      → Uploaded setting k bytes delivered w x reply
      → Row k (Holds holder) w.db
      → SettledBy setting k str_int m bytes reply
          (after_upload (freki setting) str_int client daemon_id claimed ticks m task x)
  unfolding after_upload
  after_upload-Settled bytes ticks m task w (done out, w') (ok a) on u h =
      let X = Stored k bytes in
      let kept : Kept setting X = λ n v s. q.stored n v bytes s in
      let row : Row k (Holds holder) w'.db = rw (u.same_db) h in
      let (e, n, s) =
        report-delivered setting k str_int client daemon_id token spec q p X kept Completed
          (Beats-ended setting k q str_int client daemon_id token p Completed Completed-ended) ticks
          (record m { jobs_completed = suc m.jobs_completed }) (report_failed m) m
          (complete_call (freki setting) str_int client daemon_id claimed)
          (complete_job-Case setting k q str_int client daemon_id token p X kept) all (task, w') on
          (row, u.stores out refl) in
      (e, n, s.0, s.1)
  after_upload-Settled bytes ticks m task w (freki_error x, w') (http c) on u h =
      let row : Row k (Holds holder) w'.db = rw (u.same_db) h in
      let answered = u.answers refl in
      let same : x ≡ record {
        method = codes "POST";
        url = codes "/api/models";
        status = c;
        body = setting.text c;
      } =
        cc answered in
      subst
        (λ (y : FrekiError).
          Refused setting k str_int m (refusal setting k str_int m c)
            (record m { failed_upload = suc m.failed_upload })
            (after_upload (freki setting) str_int client daemon_id claimed ticks m task
              (freki_error y, w')))
        (sym same) (failing-Refused _ ticks m _ _ (task, w') on row)
  after_upload-Settled bytes ticks m task w (done out, w') (http c) on u h =
      absurd (cc (u.answers refl))
  after_upload-Settled bytes ticks m task w (freki_error x, w') (ok a) on u h =
      absurd (cc (u.answers refl))
  after_upload-Settled bytes ticks m task w (exception, w') (ok a) on u h =
      absurd (cc (u.answers refl))
  after_upload-Settled bytes ticks m task w (exception, w') (http c) on u h =
      absurd (cc (u.answers refl))

  after_training-Settled :
      (daemon_name : Str) (result : Trained) (ticks : Ticks) (m : Metrics)
      (task : Ended × Backend S J)
      → task.0 ≡ returned
      → Row k (Holds holder) task.1.db
      → Settled setting k str_int m client daemon_name result
          (periodic_job_heartbeat
            (freki setting)
            str_int
            client
            daemon_id
            claimed
            ticks.uploading
            task).1
          (after_training
            (freki setting)
            str_int
            client
            daemon_id
            daemon_name
            claimed
            ticks
            m
            result
            task)
  unfolding after_training
  after_training-Settled daemon_name (train_error text) ticks m task on h =
      failing-Refused _ ticks m _ _ task on h
  after_training-Settled daemon_name (trained bytes a b) ticks m task on h =
      let (task', w) =
        periodic_job_heartbeat (freki setting) str_int client daemon_id claimed ticks.uploading
          task in
      let form =
        model_form (freki setting) str_int client daemon_id daemon_name claimed bytes a b in
      let x = upload_model (freki setting) str_int client form w in
      let reply = endpoint_reply setting k client form w in
      let u : Uploaded setting k bytes delivered (setting.others w.served w) x reply =
        subst (λ f. Uploaded setting k bytes f (setting.others w.served w) x reply) (all w.served)
          (upload_model-Uploaded setting k str_int client form w refl) in
      after_upload-Settled bytes ticks m task' (setting.others w.served w) x reply
        (periodic_job_heartbeat-returned setting k str_int client daemon_id token spec all
          ticks.uploading task on)
        u
        (others-held setting k str_int client daemon_id token spec q p w.served w
          (beats-held setting k str_int client daemon_id token spec q p ticks.uploading task h))

  -- When every message is delivered, a daemon that holds a job of a well-formed table, passes the
  -- secret's guard and has a token of 16 to 255 characters, while others leave the table well formed, the
  -- job's row alone and stored models stored, runs the job to an end. After a training error the job
  -- has failed with the error's text. After a training, by what Freki's endpoint answers to the form
  -- of the job's name, metrics and bytes in the state that the heartbeats leave: if it accepts the
  -- form, the job is complete with the model stored; if it answers with a code, the job has failed with
  -- that code and the first 200 characters of the answer in its text. A text is cut to 2000 characters,
  -- and the one counter of that branch has moved.
  pub execute_job-Settled :
      (daemon_name : Str) (result : Trained) (ticks : Ticks) (m : Metrics) (w : Backend S J)
      → Row k (Holds holder) w.db
      → Settled setting k str_int m client daemon_name result
          (periodic_job_heartbeat (freki setting) str_int client daemon_id claimed ticks.uploading (
            periodic_job_heartbeat
              (freki setting)
              str_int
              client
              daemon_id
              claimed
              ticks.training
              (returned, w))).1
          (execute_job
            (freki setting)
            str_int
            client
            daemon_id
            daemon_name
            claimed
            ticks
            result
            m
            w)
  unfolding execute_job
  execute_job-Settled daemon_name result ticks m w h =
      after_training-Settled daemon_name result ticks m _
        (periodic_job_heartbeat-returned setting k str_int client daemon_id token spec all
          ticks.training (returned, w) refl)
        (beats-held setting k str_int client daemon_id token spec q p ticks.training (returned, w)
          h)
