-- ===== src/Nornir/Daemon/Examples.antt =====
-- Runs of the daemon, and its theorems at a concrete queue.
use mathlib.Core.List.{mem-cons_self}
use grimnir.Base.{
  ℕ, ◌≡◌, refl, ◌≤◌, true, false, none, some, List, [], ◌∷◌, arith, ◌==◌, if◌then◌else◌, Str, codes,
  All, str_eq,
}
use grimnir.Freki.Auth.{require_ml_control_secret, require_model_upload_secret}
use grimnir.Freki.Jobs
use grimnir.Freki.Jobs.{TrainingJob, JobControlBody, queued, complete, new_job, claim_row}
use grimnir.Freki.Jobs.Table.{find}
use grimnir.Freki.Jobs.Invariant.{IsValid}
use grimnir.Freki.Jobs.Replies.{Holds}
use grimnir.Freki.Jobs.Reports.{Row, Passes}
use grimnir.Freki.Models
use grimnir.Nornir.Client.{
  ClaimedJob, FrekiClient, new_client, Backend, Fate, delivered, response_lost, Setting, freki,
  done, exception, list_queued_jobs, claim_job, heartbeat_job, complete_job, fail_job, upload_model,
  list_jobs,
}
use grimnir.Nornir.Daemon.Defs.{
  returned, Metrics, Trained, trained, Ticks, execute_job, claim_and_run, claim_first,
  after_training, after_upload, report, periodic_job_heartbeat,
}
use grimnir.Nornir.Daemon.Main.{register, crashed, serve}
use grimnir.Nornir.Daemon.Calls.{Quiet}
use grimnir.Nornir.Daemon.Verdict.{Ran, execute_job-Verdict}
use grimnir.Nornir.Daemon.Delivered.{Settled, execute_job-Settled}
use grimnir.Nornir.Daemon.Turn
use grimnir.Nornir.Daemon.Turn.{Calm, claim_and_run-oldest}

abbrev token : Str
token = codes "0123456789abcdef"

abbrev client : FrekiClient
client = new_client [] []

-- Nobody else is at work; `fate` says which messages are lost.
abbrev network : (ℕ → Fate) → Setting (Unit {0}) (Unit {0})
network fate = record {
  ml_secret = [];
  upload_secret = [];
  now = λ n. n;
  token = λ _. token;
  text = λ _. [];
  json_loads = λ _. some tt;
  is_object = λ _. true;
  valid_config = λ _. true;
  fate = fate;
  others = λ _ w. w;
}

abbrev steady : Setting (Unit {0}) (Unit {0})
steady = network (λ _. delivered)

-- The response to the third request is lost.
abbrev lossy : Setting (Unit {0}) (Unit {0})
lossy = network (λ n. if n == 2 then response_lost else delivered)

abbrev holding : List (TrainingJob (Unit {0})) → Backend (Unit {0}) (Unit {0})
holding jobs = record {
  db = record { jobs = jobs; next_id = 2; daemons = 7 ∷ []; rooms = [] };
  registry = record { rows = []; next_id = 0 };
  served = 0;
}

abbrev held_row : TrainingJob (Unit {0})
held_row = claim_row 7 token 10 (new_job 0 5 tt)

abbrev held_jobs : Backend (Unit {0}) (Unit {0})
held_jobs = holding (held_row ∷ new_job 1 6 tt ∷ [])

abbrev queue : Backend (Unit {0}) (Unit {0})
queue = holding (new_job 0 9 tt ∷ new_job 1 6 tt ∷ [])

abbrev body : JobControlBody
body = record { daemon_id = 7; claim_token = token }

abbrev job : ClaimedJob (Unit {0})
job = record { id = 0; spec = tt; claim_token = token }

abbrev start : Metrics
start = record {
  jobs_claimed = 0;
  jobs_completed = 0;
  failed_train = 0;
  failed_upload = 0;
  failed_report = 0;
  queue_depth = 0;
}

abbrev ticks : Ticks
ticks = record { training = 1; uploading = 0; reporting = 0; joining = 1 }

abbrev model : Trained
model = trained (1 ∷ 2 ∷ []) (codes "{}") (codes "{}")

program : Unit {0}
unfolding execute_job claim_and_run claim_first after_training after_upload report
    periodic_job_heartbeat list_queued_jobs claim_job heartbeat_job complete_job fail_job
    upload_model list_jobs register serve str_eq Jobs.claim_job Jobs.heartbeat_job Jobs.complete_job
    Jobs.fail_job Jobs.update_returning Models.upload_model require_ml_control_secret
    require_model_upload_secret
program = tt

abbrev no_str : ℕ → Str
no_str _ = []

-- Heartbeat, upload and completion: the lost answer to the last one goes uncounted.
lossy_run :
    let (e, m, w) =
      execute_job (freki lossy) no_str client 7 (codes "norn") job ticks model start held_jobs in
    (m.jobs_completed ≡ 0)
    × (find 0 w.db.jobs
        ≡ some (record held_row {
          status = complete;
          heartbeat_at = some 0;
          completed_at = some 2;
          claim_token = none;
        }))
unfolding program
lossy_run = (refl, refl)

crash_run : register ((exception, false) ∷ (done 7, false) ∷ []) ≡ crashed
unfolding program
crash_run = refl

steady-Quiet : Quiet steady 0
steady-Quiet = record { valid = λ n w v. v; same_row = λ n w. refl; stored = λ n w b s. s }

lossy-Quiet : Quiet lossy 0
lossy-Quiet = record { valid = λ n w v. v; same_row = λ n w. refl; stored = λ n w b s. s }

held_jobs-IsValid : IsValid held_jobs.db
held_jobs-IsValid = ground arith

queue-IsValid : IsValid queue.db
queue-IsValid = ground arith

held_jobs-Row : Row 0 (Holds body) held_jobs.db
held_jobs-Row = record {
  valid = held_jobs-IsValid;
  row = held_row;
  found = refl;
  state = record { is_on = refl; owner = refl; token = refl };
}

passes : Passes [] none body
unfolding program
passes = record { shown = refl; long = omega arith; short = omega arith }

execute_job-Verdict_example :
    Ran 0 body model start
      (execute_job (freki lossy) no_str client 7 (codes "norn") job ticks model start held_jobs)
execute_job-Verdict_example =
    execute_job-Verdict lossy 0 no_str client 7 token tt lossy-Quiet passes (codes "norn") model
      ticks start held_jobs held_jobs-Row

execute_job-Settled_example :
    Settled steady 0 no_str start client
      (codes "norn")
      model
      (periodic_job_heartbeat
        (freki steady)
        no_str
        client
        7
        job
        0
        (periodic_job_heartbeat (freki steady) no_str client 7 job 1 (returned, held_jobs))).1
      (execute_job (freki steady) no_str client 7 (codes "norn") job ticks model start held_jobs)
execute_job-Settled_example =
    execute_job-Settled steady 0 no_str client 7 token tt steady-Quiet passes (λ _. refl)
      (codes "norn") model ticks start held_jobs held_jobs-Row

calm : Calm steady none
unfolding program
calm = record {
  all = λ _. refl;
  idle = λ _ _. refl;
  shown = refl;
  long = λ _. omega arith;
  short = λ _. omega arith;
}

claim_and_run-oldest_example :
    (j : TrainingJob (Unit {0})) × (find j.id queue.db.jobs ≡ some j)
    × (j.status ≡ queued)
    × All (λ x. j.created_at ≤ x.created_at) (Turn.waiting queue)
    × Turn.Ran j.id (
        claim_and_run
          (freki steady)
          no_str
          client
          7
          (codes "norn")
          (λ _ _. model)
          ticks
          start
          queue)
claim_and_run-oldest_example =
    claim_and_run-oldest steady no_str client 7 calm (codes "norn") (λ _ _. model) ticks queue start
      queue-IsValid mem-cons_self (omega arith) (omega arith)
