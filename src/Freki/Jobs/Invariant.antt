-- ===== src/Freki/Jobs/Invariant.antt =====
-- Well-formed job tables: the columns of a row agree with its status, and no id is used twice. Each
-- endpoint and the reaper keep this.
use grimnir.Base.{
  ℕ, suc, ◌+◌, ◌≡◌, refl, ap, Bool, true, false, ◌&&◌, Option, none, List, [], ◌∷◌, ◌++◌, map,
  arith, ◌==◌, select, update, exists, Present, All, All-append, All-update, length, Str, Reply, ok,
  http, if◌then◌else◌, not, leb,
}
use grimnir.Freki.Auth.{require_ml_control_secret}
use grimnir.Freki.Jobs.Defs.{
  JobStatus, queued, running, failed, complete, cancelled, TrainingJob, JobSpec, JobControlBody, Db,
  held_by, token_fits, is_queued, is_live,
}
use grimnir.Freki.Jobs.Handlers.{
  finish, after_guard, control, update_returning, insert_jobs, claim_row, heartbeat_row,
  complete_row, fail_row, cancel_row, reap_row, is_orphan, claim_job, heartbeat_job, complete_job,
  fail_job, cancel_job, reap_once, create_job, known_only, unknown_rooms, rooms_fit,
}
use grimnir.Freki.Jobs.Table.{IdsWithin, IdsWithin-update, IdsWithin-insert}

module _ {S : Type 0} where
  -- A queued job belongs to nobody, a running one has an owner, a token and a heartbeat, and an
  -- ended one has given its token back and says when it ended.
  abbrev pub StatusValid : JobStatus → TrainingJob S → Type 0
  StatusValid queued j =
      (j.daemon_id ≡ none)
      × (j.claim_token ≡ none)
      × (j.claimed_at ≡ none)
      × (j.heartbeat_at ≡ none)
      × (j.completed_at ≡ none)
      × (j.error ≡ none)
  StatusValid running j =
      Present j.daemon_id
      × Present j.claim_token
      × Present j.claimed_at
      × Present j.heartbeat_at
      × (j.completed_at ≡ none)
      × (j.error ≡ none)
  StatusValid failed j = (j.claim_token ≡ none) × Present j.completed_at × Present j.error
  StatusValid complete j = (j.claim_token ≡ none) × Present j.completed_at × (j.error ≡ none)
  StatusValid cancelled j = (j.claim_token ≡ none) × Present j.completed_at × (j.error ≡ none)

  abbrev pub RowValid : TrainingJob S → Type 0
  RowValid j = StatusValid j.status j

  pub record IsValid (db : Db S) : Type 0 where
    pub ids : IdsWithin 0 db.next_id db.jobs
    pub rows : All RowValid db.jobs

  finish-IsValid :
      (l : List (TrainingJob S)) (old new : Db S)
      → IsValid old
      → IsValid new
      → IsValid (finish l old new).1
  finish-IsValid [] old new v w = v
  finish-IsValid (j ∷ []) old new v w = w
  finish-IsValid (j ∷ k ∷ l) old new v w = v

  after_guard-IsValid :
      {A : Type 0} (g : Reply (Unit {0})) (db : Db S) (rest : Reply A × Db S)
      → IsValid db
      → IsValid rest.1
      → IsValid (after_guard g db rest).1
  after_guard-IsValid (ok _) db rest v w = w
  after_guard-IsValid (http _) db rest v w = v

  if-IsValid :
      {A : Type 0} (b : Bool) (x y : Reply A × Db S)
      → IsValid x.1
      → IsValid y.1
      → IsValid (if b then x else y).1
  if-IsValid true x y v w = v
  if-IsValid false x y v w = w

  update_returning-IsValid :
      (p : TrainingJob S → Bool) (f : TrainingJob S → TrainingJob S) (db : Db S)
      → ((j : TrainingJob S) → (f j).id ≡ j.id)
      → ((j : TrainingJob S) → RowValid j → p j ≡ true → RowValid (f j))
      → IsValid db
      → IsValid (update_returning p f db).1
  unfolding update_returning
  update_returning-IsValid p f db same keep v =
      finish-IsValid (map f (select p db.jobs)) db _ v (record {
        ids = IdsWithin-update 0 db.next_id p f same db.jobs v.ids;
        rows = All-update RowValid p f db.jobs keep v.rows;
      })

  -- The row updates keep a row valid, from the rows that their WHERE clauses let through.
  claim_row-RowValid :
      (daemon_id : ℕ) (token : Str) (now k : ℕ) (j : TrainingJob S)
      → RowValid j
      → (j.id == k && is_queued j.status) ≡ true
      → RowValid (claim_row daemon_id token now j)
  claim_row-RowValid d t now k j v h = ground arith

  held-RowValid :
      (k now : ℕ) (body : JobControlBody) (error : Str) (j : TrainingJob S)
      → RowValid j
      → held_by k body j ≡ true
      → RowValid (heartbeat_row now j)
        × RowValid (complete_row now j)
        × RowValid (fail_row error now j)
  held-RowValid k now body error j v h = ground arith

  cancel_row-RowValid :
      (k now : ℕ) (j : TrainingJob S)
      → RowValid j
      → (j.id == k && is_live j.status) ≡ true
      → RowValid (cancel_row now j)
  cancel_row-RowValid k now j v h = ground arith

  reap_row-RowValid :
      (timeout now : ℕ) (j : TrainingJob S)
      → RowValid j
      → is_orphan timeout now j ≡ true
      → RowValid (reap_row now j)
  reap_row-RowValid timeout now j v h = ground arith

  insert_jobs-RowValid : (id now : ℕ) (specs : List S) → All RowValid (insert_jobs id now specs)
  insert_jobs-RowValid id now [] = tt
  insert_jobs-RowValid id now (x ∷ specs) =
      ((refl, refl, refl, refl, refl, refl), insert_jobs-RowValid (suc id) now specs)

  pub length-insert_jobs :
      (id now : ℕ) (specs : List S) → length (insert_jobs id now specs) ≡ length specs
  length-insert_jobs id now [] = refl
  length-insert_jobs id now (x ∷ specs) = ap suc (length-insert_jobs (suc id) now specs)

  insert-IsValid :
      (now : ℕ) (specs : List S) (db : Db S)
      → IsValid db
      → IsValid (record db {
        jobs = db.jobs ++ insert_jobs db.next_id now specs;
        next_id = db.next_id + length specs;
      })
  insert-IsValid now specs db v = record {
    ids = IdsWithin-insert 0 db.next_id now db.jobs specs v.ids;
    rows = All-append RowValid db.jobs _ v.rows (insert_jobs-RowValid db.next_id now specs);
  }

  module _ (secret : Str) (provided : Option Str) (db : Db S) (v : IsValid db) where
    pub claim_job-IsValid :
        (job_id daemon_id : ℕ) (token : Str) (now : ℕ)
        → IsValid (claim_job secret provided job_id daemon_id token now db).1
    unfolding claim_job
    claim_job-IsValid k d t now =
        after_guard-IsValid (require_ml_control_secret secret provided) db _ v (
          if-IsValid (exists (λ x. x == d) db.daemons) _ (http 404, db)
            (update_returning-IsValid _ _ db (λ j. refl) (claim_row-RowValid d t now k) v) v)

    control-IsValid :
        (body : JobControlBody) (k : ℕ) (f : TrainingJob S → TrainingJob S)
        → ((j : TrainingJob S) → (f j).id ≡ j.id)
        → ((j : TrainingJob S) → RowValid j → held_by k body j ≡ true → RowValid (f j))
        → IsValid (control secret provided body k f db).1
    control-IsValid body k f same keep =
        after_guard-IsValid (require_ml_control_secret secret provided) db _ v (
          if-IsValid (token_fits body) _ (http 422, db)
            (update_returning-IsValid _ f db same keep v) v)

    pub heartbeat_job-IsValid :
        (body : JobControlBody) (k now : ℕ)
        → IsValid (heartbeat_job secret provided body k now db).1
    unfolding heartbeat_job
    heartbeat_job-IsValid body k now =
        control-IsValid body k (heartbeat_row now) (λ j. refl)
          (λ j r h. (held-RowValid k now body [] j r h).0)

    pub complete_job-IsValid :
        (body : JobControlBody) (k now : ℕ) → IsValid (complete_job secret provided body k now db).1
    unfolding complete_job
    complete_job-IsValid body k now =
        control-IsValid body k (complete_row now) (λ j. refl)
          (λ j r h. (held-RowValid k now body [] j r h).1)

    pub fail_job-IsValid :
        (body : JobControlBody) (error : Str) (k now : ℕ)
        → IsValid (fail_job secret provided body error k now db).1
    unfolding fail_job
    fail_job-IsValid body error k now =
        control-IsValid body k (fail_row error now) (λ j. refl)
          (λ j r h. (held-RowValid k now body error j r h).2)

  module _ (db : Db S) (v : IsValid db) where
    pub cancel_job-IsValid : (k now : ℕ) → IsValid (cancel_job k now db).1
    unfolding cancel_job
    cancel_job-IsValid k now =
        update_returning-IsValid _ _ db (λ j. refl) (cancel_row-RowValid k now) v

    pub reap_once-IsValid : (timeout now : ℕ) → IsValid (reap_once timeout now db).1
    unfolding reap_once
    reap_once-IsValid timeout now =
        let specs = map (λ j. j.spec) (select (is_orphan timeout now) db.jobs) in
        rw (length-insert_jobs db.next_id now specs) (
          insert-IsValid now specs
            (record db { jobs = update (is_orphan timeout now) (reap_row now) db.jobs })
            (record {
              ids = IdsWithin-update 0 db.next_id _ (reap_row now) (λ j. refl) db.jobs v.ids;
              rows =
                  All-update RowValid _ (reap_row now) db.jobs (reap_row-RowValid timeout now)
                    v.rows;
            }))

module _ {H F : Type 0} where
  known_only-IsValid :
      (l : List Str) (done : Reply (TrainingJob (JobSpec H F)) × Db (JobSpec H F))
      (db : Db (JobSpec H F))
      → IsValid done.1
      → IsValid db
      → IsValid (known_only l done db).1
  known_only-IsValid [] done db v w = v
  known_only-IsValid (_ ∷ _) done db v w = w

  pub create_job-IsValid :
      (spec : JobSpec H F) (now : ℕ) (db : Db (JobSpec H F))
      → IsValid db
      → IsValid (create_job spec now db).1
  unfolding create_job
  create_job-IsValid spec now db v =
      if-IsValid (not (rooms_fit spec)) (http 422, db) _ v
        (if-IsValid (leb spec.time_end spec.time_start) (http 422, db) _ v
          (known_only-IsValid (unknown_rooms db.rooms spec.rooms) _ db
            (insert-IsValid now (spec ∷ []) db v) v))
