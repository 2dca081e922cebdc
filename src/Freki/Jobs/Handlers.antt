-- ===== src/Freki/Jobs/Handlers.antt =====
-- The endpoints of routers/training_jobs.py that write, and `_reap_once` of orphan_reaper.py. Each
-- takes the database and returns the reply with the database after it; `now` is the server's NOW().
use grimnir.Base.{
  ℕ, suc, ◌+◌, Bool, false, not, ◌&&◌, Option, none, some, List, [], ◌∷◌, ◌++◌, map, ltb, leb, ◌==◌,
  if◌then◌else◌, Str, codes, str_eq, length, select, update, exists, Reply, ok, http,
}
use grimnir.Freki.Auth.{require_ml_control_secret}
use grimnir.Freki.Jobs.Defs.{
  queued, running, failed, complete, cancelled, is_queued, is_running, is_live, JobSpec,
  TrainingJob, JobControlBody, Db, token_fits, held_by,
}

-- A dependency that raises ends the request before the body is looked at.
abbrev pub after_guard {ℓ κ} :
    {A : Type ℓ} {D : Type κ} → Reply (Unit {0}) → D → Reply A × D → Reply A × D
after_guard (ok _) db rest = rest
after_guard (http code) db rest = (http code, db)

-- `heartbeat_at IS NOT NULL AND heartbeat_at < NOW() - timeout`, on a running job.
abbrev pub stale : Option ℕ → ℕ → ℕ → Bool
stale none timeout now = false
stale (some beat) timeout now = ltb (beat + timeout) now

-- `[r for r in body.spec.rooms if r not in known_names]`
abbrev pub unknown_rooms : List Str → List Str → List Str
unknown_rooms known = select (λ r. not (exists (str_eq r) known))

module _ {S : Type 0} where
  -- UPDATE ... WHERE p RETURNING, `scalar_one_or_none`, and commit or rollback: no row is a 409,
  -- and two rows are an exception that leaves the transaction uncommitted.
  abbrev pub finish : List (TrainingJob S) → Db S → Db S → Reply (TrainingJob S) × Db S
  finish [] old new = (http 409, old)
  finish (j ∷ []) old new = (ok j, new)
  finish (j ∷ _ ∷ _) old new = (http 500, old)

  unfoldable pub update_returning :
      (TrainingJob S → Bool) → (TrainingJob S → TrainingJob S) → Db S → Reply (TrainingJob S) × Db S
  update_returning p f db =
      finish (map f (select p db.jobs)) db (record db { jobs = update p f db.jobs })

  -- A row as INSERT makes it: the column defaults, and the next id.
  abbrev pub new_job : ℕ → ℕ → S → TrainingJob S
  new_job id now spec = record {
    id = id;
    status = queued;
    spec = spec;
    daemon_id = none;
    claim_token = none;
    created_at = now;
    claimed_at = none;
    heartbeat_at = none;
    completed_at = none;
    error = none;
  }

  abbrev pub claim_row : ℕ → Str → ℕ → TrainingJob S → TrainingJob S
  claim_row daemon_id token now j = record j {
    status = running;
    daemon_id = some daemon_id;
    claim_token = some token;
    claimed_at = some now;
    heartbeat_at = some now;
  }

  -- `daemon_id` is the claim's body, `token` is what `secrets.token_urlsafe(32)` returns; the unique
  -- index, which refuses a token that another row holds, is left out.
  unfoldable pub claim_job :
      Str → Option Str → ℕ → ℕ → Str → ℕ → Db S → Reply (TrainingJob S) × Db S
  unfolding update_returning
  claim_job secret provided job_id daemon_id token now db =
      after_guard (require_ml_control_secret secret provided) db (
        if exists (λ d. d == daemon_id) db.daemons
        then update_returning (λ j. j.id == job_id && is_queued j.status)
            (claim_row daemon_id token now) db
        else (http 404, db))

  abbrev pub control :
      Str
      → Option Str
      → JobControlBody
      → ℕ
      → (TrainingJob S → TrainingJob S)
      → Db S
      → Reply (TrainingJob S) × Db S
  control secret provided body job_id f db =
      after_guard (require_ml_control_secret secret provided) db
        (if token_fits body then update_returning (held_by job_id body) f db else (http 422, db))

  abbrev pub heartbeat_row : ℕ → TrainingJob S → TrainingJob S
  heartbeat_row now j = record j { heartbeat_at = some now }

  unfoldable pub heartbeat_job :
      Str → Option Str → JobControlBody → ℕ → ℕ → Db S → Reply (TrainingJob S) × Db S
  unfolding update_returning
  heartbeat_job secret provided body job_id now =
      control secret provided body job_id (heartbeat_row now)

  abbrev pub complete_row : ℕ → TrainingJob S → TrainingJob S
  complete_row now j = record j { status = complete; completed_at = some now; claim_token = none }

  unfoldable pub complete_job :
      Str → Option Str → JobControlBody → ℕ → ℕ → Db S → Reply (TrainingJob S) × Db S
  unfolding update_returning
  complete_job secret provided body job_id now =
      control secret provided body job_id (complete_row now)

  abbrev pub fail_row : Str → ℕ → TrainingJob S → TrainingJob S
  fail_row error now j = record j {
    status = failed;
    completed_at = some now;
    error = some error;
    claim_token = none;
  }

  unfoldable pub fail_job :
      Str → Option Str → JobControlBody → Str → ℕ → ℕ → Db S → Reply (TrainingJob S) × Db S
  unfolding update_returning
  fail_job secret provided body error job_id now =
      control secret provided body job_id (fail_row error now)

  abbrev pub cancel_row : ℕ → TrainingJob S → TrainingJob S
  cancel_row now j = record j { status = cancelled; completed_at = some now; claim_token = none }

  unfoldable pub cancel_job : ℕ → ℕ → Db S → Reply (TrainingJob S) × Db S
  unfolding update_returning
  cancel_job job_id now =
      update_returning (λ j. j.id == job_id && is_live j.status) (cancel_row now)

  abbrev pub is_orphan : ℕ → ℕ → TrainingJob S → Bool
  is_orphan timeout now j = is_running j.status && stale j.heartbeat_at timeout now

  abbrev pub reap_row : ℕ → TrainingJob S → TrainingJob S
  reap_row now j = record j {
    status = failed;
    completed_at = some now;
    error = some (codes "daemon heartbeat timeout");
    claim_token = none;
  }

  -- INSERT ... SELECT spec FROM reaped: one fresh row for each spec, numbered by the sequence.
  abbrev pub insert_jobs : ℕ → ℕ → List S → List (TrainingJob S)
  insert_jobs id now [] = []
  insert_jobs id now (spec ∷ specs) = new_job id now spec ∷ insert_jobs (suc id) now specs

  -- The ids of the failed rows and of the fresh ones, and the database after the statement.
  unfoldable pub reap_once : ℕ → ℕ → Db S → (List ℕ × List ℕ) × Db S
  reap_once timeout now db =
      let reaped = select (is_orphan timeout now) db.jobs in
      let requeued = insert_jobs db.next_id now (map (λ j. j.spec) reaped) in
      (
        (map (λ j. j.id) reaped, map (λ j. j.id) requeued),
        record db {
          jobs = update (is_orphan timeout now) (reap_row now) db.jobs ++ requeued;
          next_id = db.next_id + length requeued;
        },
      )

module _ {H F : Type 0} where
  -- `rooms: list[str] = Field(min_length=1, max_length=32)`
  abbrev pub rooms_fit : JobSpec H F → Bool
  rooms_fit spec = leb 1 (length spec.rooms) && leb (length spec.rooms) 32

  abbrev pub known_only :
      List Str
      → Reply (TrainingJob (JobSpec H F)) × Db (JobSpec H F)
      → Db (JobSpec H F)
      → Reply (TrainingJob (JobSpec H F)) × Db (JobSpec H F)
  known_only [] done db = done
  known_only (_ ∷ _) done db = (http 422, db)

  unfoldable pub create_job :
      JobSpec H F → ℕ → Db (JobSpec H F) → Reply (TrainingJob (JobSpec H F)) × Db (JobSpec H F)
  create_job spec now db =
      if not (rooms_fit spec)
      then (http 422, db)
      else if leb spec.time_end spec.time_start
      then (http 422, db)
      else known_only (unknown_rooms db.rooms spec.rooms)
          (
            ok (new_job db.next_id now spec),
            record db {
              jobs = db.jobs ++ (new_job db.next_id now spec ∷ []);
              next_id = db.next_id + 1;
            },
          )
          db
