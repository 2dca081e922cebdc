-- ===== src/Freki/Jobs/Examples.antt =====
-- Runs of the job queue, and its theorems at concrete tables.
use mathlib.Core.List.{Mem, Perm}
use grimnir.Base.{
  ◌<◌, ◌≤◌, ◌≡◌, ◌↔◌, refl, some, [], ◌∷◌, ◌++◌, arith, length, All, Str, codes, str_eq, ok, http,
}
use grimnir.Freki.Auth.{require_ml_control_secret}
use grimnir.Freki.Jobs.Defs.{queued, cancelled, TrainingJob, JobSpec, JobControlBody, Db}
use grimnir.Freki.Jobs.Handlers.{
  claim_job, heartbeat_job, complete_job, fail_job, cancel_job, reap_once, create_job,
  update_returning, new_job, claim_row, heartbeat_row, complete_row, fail_row, reap_row,
}
use grimnir.Freki.Jobs.Table.{find}
use grimnir.Freki.Jobs.Invariant.{IsValid}
use grimnir.Freki.Jobs.Lifecycle.{Reach-IsValid, Reach-ended, here, next, cancel, reap}
use grimnir.Freki.Jobs.Ownership.{Entitled, reports-ok_iff, claim_job-ok_iff, claim_job-exclusive}
use grimnir.Freki.Jobs.Reaper.{pending, Orphan, reap_once-pending, reap_once-exact}
use grimnir.Freki.Jobs.Create.{create_job-ok_iff}

abbrev Spec : Type 0
Spec = JobSpec (Unit {0}) (Unit {0})

abbrev kitchen : Spec
kitchen = record {
  model_type = codes "random_forest";
  hyperparams = tt;
  feature_config = tt;
  time_start = 100;
  time_end = 200;
  rooms = codes "kitchen" ∷ [];
}

abbrev secret : Str
secret = codes "s3cret"

abbrev token : Str
token = codes "0123456789abcdef"

abbrev body : JobControlBody
body = record { daemon_id = 7; claim_token = token }

-- Job 1 is queued and job 0 is being trained by daemon 7.
abbrev busy_row : TrainingJob Spec
busy_row = claim_row 7 token 10 (new_job 0 5 kitchen)

abbrev waiting_row : TrainingJob Spec
waiting_row = new_job 1 6 kitchen

abbrev table : Db Spec
table = record {
  jobs = busy_row ∷ waiting_row ∷ [];
  next_id = 2;
  daemons = 7 ∷ [];
  rooms = codes "kitchen" ∷ [];
}

abbrev over_row : TrainingJob Spec
over_row = record waiting_row { status = cancelled; completed_at = some 9 }

abbrev ended_table : Db Spec
ended_table = record table { jobs = busy_row ∷ over_row ∷ [] }

program : Unit {0}
unfolding claim_job heartbeat_job complete_job fail_job cancel_job reap_once create_job
    require_ml_control_secret str_eq update_returning
program = tt

table-IsValid : IsValid table
table-IsValid = ground arith

-- The secret is shown, the token is right.
complete_run : (complete_job secret (some secret) body 0 20 table).0 ≡ ok (complete_row 20 busy_row)
unfolding program
complete_run = refl

stale_token_run :
    (complete_job secret
      (some secret)
      (record body { claim_token = codes "fedcba9876543210" })
      0
      20
      table).0
    ≡ http 409
unfolding program
stale_token_run = refl

Reach-IsValid_example : IsValid (reap_once 5 30 (cancel_job 1 9 table).1).1
Reach-IsValid_example =
    Reach-IsValid {s = table} table-IsValid (next (next here (cancel 1 9)) (reap 5 30))

Reach-ended_example : find 1 (reap_once 5 30 ended_table).1.jobs ≡ some over_row
Reach-ended_example = Reach-ended {s = ended_table} 1 over_row (next here (reap 5 30)) refl refl

reports-ok_iff_example :
    (((heartbeat_job secret (some secret) body 0 20 table).0 ≡ ok busy_row) ↔ (
      (j : TrainingJob Spec) × Entitled secret (some secret) body 0 table j
      × (busy_row ≡ heartbeat_row 20 j)))
    × (((complete_job secret (some secret) body 0 20 table).0 ≡ ok busy_row) ↔ (
        (j : TrainingJob Spec) × Entitled secret (some secret) body 0 table j
        × (busy_row ≡ complete_row 20 j)))
    × (((fail_job secret (some secret) body (codes "boom") 0 20 table).0 ≡ ok busy_row) ↔ (
        (j : TrainingJob Spec) × Entitled secret (some secret) body 0 table j
        × (busy_row ≡ fail_row (codes "boom") 20 j)))
reports-ok_iff_example =
    reports-ok_iff secret (some secret) body (codes "boom") 0 20 table busy_row table-IsValid

claim_job-ok_iff_example : ((claim_job secret (some secret) 1 7 token 12 table).0 ≡ ok busy_row) ↔ (
    (j : TrainingJob Spec) × (require_ml_control_secret secret (some secret) ≡ ok tt)
    × Mem 7 table.daemons
    × (find 1 table.jobs ≡ some j)
    × (j.status ≡ queued)
    × (busy_row ≡ claim_row 7 token 12 j))
claim_job-ok_iff_example =
    claim_job-ok_iff secret (some secret) 1 7 token 12 table busy_row table-IsValid

claim_job-exclusive_example : ¬ (
    (claim_job secret
      (some secret)
      1
      7
      token
      14
      (claim_job secret (some secret) 1 7 token 12 table).1).0
    ≡ ok waiting_row)
unfolding program
claim_job-exclusive_example =
    claim_job-exclusive secret secret (some secret) (some secret) 1 7 7 token token 12 14 table
      (claim_job secret (some secret) 1 7 token 12 table).1 (claim_row 7 token 12 waiting_row)
      waiting_row table-IsValid refl here

reap_once-pending_example : Perm (pending (reap_once 5 30 table).1.jobs) (pending table.jobs)
reap_once-pending_example = reap_once-pending 5 30 table

reap_once-exact_example :
    (Orphan 5 30 busy_row → find 0 (reap_once 5 30 table).1.jobs ≡ some (reap_row 30 busy_row))
    × ((¬ Orphan 5 30 busy_row) → find 0 (reap_once 5 30 table).1.jobs ≡ some busy_row)
reap_once-exact_example = reap_once-exact 5 30 0 table busy_row refl

create_job-ok_iff_example : (create_job kitchen 8 table ≡ (ok (new_job 2 8 kitchen), table)) ↔ (
    (1 ≤ length kitchen.rooms)
    × (length kitchen.rooms ≤ 32)
    × (kitchen.time_start < kitchen.time_end)
    × All (λ x. Mem x table.rooms) kitchen.rooms
    × (new_job 2 8 kitchen ≡ new_job 2 8 kitchen)
    × (table ≡ record table { jobs = table.jobs ++ (new_job 2 8 kitchen ∷ []); next_id = 3 }))
create_job-ok_iff_example = create_job-ok_iff kitchen 8 table (new_job 2 8 kitchen) table
