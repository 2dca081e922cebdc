-- ===== src/Nornir/Daemon/Calls.antt =====
-- What the calls of the client do to Freki's tables, whatever becomes of their requests.
use mathlib.Core.List.{Mem}
use grimnir.Base.{
  ℕ, zero, suc, ◌≡◌, refl, sym, subst, ◌∙◌, false, some, List, Str, codes, take, Reply, ok,
}
use grimnir.Freki.Jobs
use grimnir.Freki.Jobs.{failed, complete, Db, TrainingJob, JobControlBody, is_live}
use grimnir.Freki.Jobs.Table.{find}
use grimnir.Freki.Jobs.Invariant.{IsValid}
use grimnir.Freki.Jobs.Replies.{Holds}
use grimnir.Freki.Jobs.Reports.{
  Row, Passes, heartbeat_job-Row, complete_job-Row, fail_job-Row, heartbeat_job-ended,
}
use grimnir.Freki.Models.{TrainedModel, Registry}
use grimnir.Nornir.Client.{
  HttpResponse, Exchange, responded, transport_error, Outcome, job_path, done, freki_error,
  exception, request, json, unread, success, FrekiClient, heartbeat_job, complete_job, fail_job,
  Backend, Fate, delivered, request_lost, response_lost, Setting, sent, on_db, freki,
}
use grimnir.Nornir.Daemon.Defs.{Ended, returned, escaped, caught, periodic_job_heartbeat}

module _ {A W : Type 0} where
  request-state :
      (method path : Str) (expected : List ℕ) (x : Exchange A × W)
      → (request method path expected x).1 ≡ x.1
  request-state method path expected (transport_error, w) = refl
  request-state method path expected (responded r, w) = refl

  unread-state : (x : Outcome (HttpResponse A) × W) → (unread x).1 ≡ x.1
  unread-state (done r, w) = refl
  unread-state (freki_error e, w) = refl
  unread-state (exception, w) = refl

  json-state : (x : Outcome (HttpResponse A) × W) → (json x).1 ≡ x.1
  json-state (done r, w) = refl
  json-state (freki_error e, w) = refl
  json-state (exception, w) = refl

  unread-keeps :
      (R : W → Type 0) (method path : Str) (expected : List ℕ) (x : Exchange A × W)
      → R x.1
      → R (unread (request method path expected x)).1
  unread-keeps R method path expected x h =
      subst R
        (sym (unread-state (request method path expected x) ∙ request-state method path expected x))
        h

caught-state : {W : Type 0} (x : Outcome (Unit {0}) × W) → (caught x).1 ≡ x.1
caught-state (done r, w) = refl
caught-state (freki_error e, w) = refl
caught-state (exception, w) = refl

abbrev pub Completed : {S : Type 0} → TrainingJob S → Type 0
Completed r = r.status ≡ complete

-- What `fail_job` leaves, which sends the first 2000 characters of its text.
abbrev pub FailedWith : {S : Type 0} → Str → TrainingJob S → Type 0
FailedWith error r = (r.status ≡ failed) × (r.error ≡ some (take 2000 error))

-- A model with the bytes is stored for the job.
abbrev pub Stored : {J : Type 0} → ℕ → List ℕ → Registry J → Type 0
Stored {J} k bytes t =
    (r : TrainedModel J) × Mem r t.rows × (r.training_job_id ≡ some k) × (r.model_data ≡ bytes)

module _ {S J : Type 0} (setting : Setting S J) where
  -- What other clients and the reaper do leaves the tables well formed, the row of the job as it is,
  -- and the stored models stored.
  pub record Quiet (k : ℕ) : Type 0 where
    pub valid : (n : ℕ) (w : Backend S J) → IsValid w.db → IsValid (setting.others n w).db
    pub same_row :
        (n : ℕ) (w : Backend S J) → find k (setting.others n w).db.jobs ≡ find k w.db.jobs
    pub stored :
        (n : ℕ) (w : Backend S J) (bytes : List ℕ)
        → Stored k bytes w.registry
        → Stored k bytes (setting.others n w).registry

  -- The tables: the row of the job, and what is known of the stored models.
  abbrev pub State : ℕ → (TrainingJob S → Type 0) → (Registry J → Type 0) → Backend S J → Type 0
  State k P X w = Row k P w.db × X w.registry

  -- A fact on the models that others leave true.
  abbrev pub Kept : (Registry J → Type 0) → Type 0
  Kept X = (n : ℕ) (w : Backend S J) → X w.registry → X (setting.others n w).registry

  pub others-State :
      (k : ℕ) (P : TrainingJob S → Type 0) (X : Registry J → Type 0)
      → Quiet k
      → Kept X
      → (n : ℕ) (w : Backend S J) → State k P X w
      → State k P X (setting.others n w)
  others-State k P X q kept n w (h, x) = (
    record {
      valid = q.valid n w h.valid;
      row = h.row;
      found = q.same_row n w ∙ h.found;
      state = h.state;
    },
    kept n w x,
  )

  sent-State :
      {A : Type 0} (k : ℕ) (P : TrainingJob S → Type 0) (X : Registry J → Type 0) (f : Fate)
      (w : Backend S J) (x : Exchange A × Backend S J)
      → State k P X w
      → State k P X x.1
      → State k P X (sent setting f w x).1
  sent-State k P X delivered w x h h' = h'
  sent-State k P X request_lost w x h h' = h
  sent-State k P X response_lost w x h h' = h'

  module _ (k : ℕ) (q : Quiet k) (str_int : ℕ → Str) (client : FrekiClient) (daemon_id : ℕ)
      (token : Str)
      (p : Passes setting.ml_secret client.ml_control_shared_secret
        (record { daemon_id = daemon_id; claim_token = token })) where
    abbrev pub holder : JobControlBody
    holder = record { daemon_id = daemon_id; claim_token = token }

    -- A heartbeat keeps what it finds: the job held, or ended.
    abbrev pub Beats : (TrainingJob S → Type 0) → Type 0
    Beats P =
        (now : ℕ) (db : Db S)
        → Row k P db
        → Row k P
            (Jobs.heartbeat_job setting.ml_secret client.ml_control_shared_secret holder k now db).1

    pub Beats-Holds : Beats (Holds holder)
    Beats-Holds now db h =
        heartbeat_job-Row setting.ml_secret client.ml_control_shared_secret holder k now db p h

    pub Beats-ended :
        (P : TrainingJob S → Type 0)
        → ((r : TrainingJob S) → P r → is_live r.status ≡ false)
        → Beats P
    Beats-ended P over now db h =
        heartbeat_job-ended setting.ml_secret client.ml_control_shared_secret holder k now db P over
          h

    module _ (P : TrainingJob S → Type 0) (X : Registry J → Type 0) (beats : Beats P)
        (kept : Kept X) where
      heartbeat_job-State :
          (w : Backend S J)
          → State k P X w
          → State k P X (heartbeat_job (freki setting) str_int client k daemon_id token w).1
      unfolding heartbeat_job
      heartbeat_job-State w h =
          let w' = setting.others w.served w in
          let h' = others-State k P X q kept w.served w h in
          let x : Exchange (TrainingJob S) × Backend S J = on_db setting 200 w' (
            Jobs.heartbeat_job setting.ml_secret client.ml_control_shared_secret holder k
              (setting.now w'.served) w'.db) in
          let sends : State k P X (sent setting (setting.fate w.served) w' x).1 =
            sent-State k P X (setting.fate w.served) w' x h' (beats _ w'.db h'.0, h'.1) in
          unread-keeps (State k P X) (codes "POST") (job_path str_int k (codes "heartbeat")) success
            (sent setting (setting.fate w.served) w' x) sends

      pub periodic_job_heartbeat-State :
          (spec : S) (n : ℕ) (task : Ended × Backend S J)
          → State k P X task.1
          → State k P X
              (periodic_job_heartbeat
                (freki setting)
                str_int
                client
                daemon_id
                (record { id = k; spec = spec; claim_token = token })
                n
                task).1
      unfolding periodic_job_heartbeat
      periodic_job_heartbeat-State spec zero task h = h
      periodic_job_heartbeat-State spec (suc n) (escaped, w) h = h
      periodic_job_heartbeat-State spec (suc n) (returned, w) h =
          periodic_job_heartbeat-State spec n _
            (subst (State k P X) (sym (caught-state _)) (heartbeat_job-State w h))

    module _ (X : Registry J → Type 0) (kept : Kept X) where
      -- How a report on a held job ends, by the fate of its request: `P` is what it makes of the row.
      abbrev pub Case : Fate → (TrainingJob S → Type 0) → Outcome (Unit {0}) × Backend S J → Type 0
      Case delivered P (o, w) = (o ≡ done tt) × State k P X w
      Case request_lost P (o, w) = (o ≡ exception) × State k (Holds holder) X w
      Case response_lost P (o, w) = (o ≡ exception) × State k P X w

      report-Case :
          (path : Str) (f : Fate) (P : TrainingJob S → Type 0) (w : Backend S J)
          (x : Reply (TrainingJob S) × Db S) (r : TrainingJob S)
          → x.0 ≡ ok r
          → State k (Holds holder) X w
          → Row k P x.1
          → Case f P (
              unread
                (request (codes "POST") path success (sent setting f w (on_db setting 200 w x))))
      report-Case path delivered P w x r e h h' = rw e (refl, (h', h.1))
      report-Case path request_lost P w x r e h h' = (refl, h)
      report-Case path response_lost P w x r e h h' = (refl, (h', h.1))

      pub complete_job-Case :
          (w : Backend S J)
          → State k (Holds holder) X w
          → Case
              (setting.fate w.served)
              Completed
              (complete_job (freki setting) str_int client k daemon_id token w)
      unfolding complete_job
      complete_job-Case w h =
          let w' = setting.others w.served w in
          let h' = others-State k (Holds holder) X q kept w.served w h in
          let (answered, row) =
            complete_job-Row setting.ml_secret client.ml_control_shared_secret holder k
              (setting.now w'.served) w'.db p h'.0 in
          report-Case _ (setting.fate w.served) Completed w' _ _ answered h' (record {
            valid = row.valid;
            row = row.row;
            found = row.found;
            state = rw (row.state) refl;
          })

      pub fail_job-Case :
          (error : Str) (w : Backend S J)
          → State k (Holds holder) X w
          → Case
              (setting.fate w.served)
              (FailedWith error)
              (fail_job (freki setting) str_int client k daemon_id token error w)
      unfolding fail_job
      fail_job-Case error w h =
          let w' = setting.others w.served w in
          let h' = others-State k (Holds holder) X q kept w.served w h in
          let (answered, row) =
            fail_job-Row setting.ml_secret client.ml_control_shared_secret holder k
              (setting.now w'.served) w'.db p h'.0 (take 2000 error) in
          report-Case _ (setting.fate w.served) (FailedWith error) w' _ _ answered h' (record {
            valid = row.valid;
            row = row.row;
            found = row.found;
            state = rw (row.state) (refl, refl);
          })
