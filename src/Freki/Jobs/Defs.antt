-- ===== src/Freki/Jobs/Defs.antt =====
-- The rows of `training_jobs` (class TrainingJob), the request bodies, and the database that the
-- job endpoints share.
use grimnir.Base.{
  ℕ, Bool, true, false, ◌&&◌, Option, none, some, List, leb, ◌==◌, Str, str_eq, length,
}

pub data JobStatus : Type 0 where
  queued running failed complete cancelled : JobStatus

-- The column `status` holds one of five texts; the model compares the constructors.
abbrev pub is_queued : JobStatus → Bool
is_queued queued = true
is_queued _ = false

abbrev pub is_running : JobStatus → Bool
is_running running = true
is_running _ = false

-- `status.in_(["queued", "running"])`
abbrev pub is_live : JobStatus → Bool
is_live queued = true
is_live running = true
is_live _ = false

-- `H` stands for the free-form `hyperparams`, `F` for the feature configuration.
pub record JobSpec (H F : Type 0) : Type 0 where
  pub model_type : Str
  pub hyperparams : H
  pub feature_config : F
  pub time_start : ℕ
  pub time_end : ℕ
  pub rooms : List Str

-- `S` is the type of the `spec` column; times are microseconds.
pub record TrainingJob (S : Type 0) : Type 0 where
  pub id : ℕ
  pub status : JobStatus
  pub spec : S
  pub daemon_id : Option ℕ
  pub claim_token : Option Str
  pub created_at : ℕ
  pub claimed_at : Option ℕ
  pub heartbeat_at : Option ℕ
  pub completed_at : Option ℕ
  pub error : Option Str

pub record JobControlBody : Type 0 where
  pub daemon_id : ℕ
  pub claim_token : Str

-- What the endpoints read and write: the jobs, the sequence behind their ids, the ids of the
-- registered daemons and the names of the rooms.
pub record Db (S : Type 0) : Type 0 where
  pub jobs : List (TrainingJob S)
  pub next_id : ℕ
  pub daemons : List ℕ
  pub rooms : List Str

-- `claim_token: str = Field(min_length=16, max_length=255)`
abbrev pub token_fits : JobControlBody → Bool
token_fits body = leb 16 (length body.claim_token) && leb (length body.claim_token) 255

-- `column == value` on a nullable column: NULL passes no test.
abbrev pub eq_nat : Option ℕ → ℕ → Bool
eq_nat none k = false
eq_nat (some a) k = a == k

abbrev pub eq_str : Option Str → Str → Bool
eq_str none t = false
eq_str (some s) t = str_eq s t

-- The WHERE clause shared by heartbeat, complete and fail.
abbrev pub held_by : {S : Type 0} → ℕ → JobControlBody → TrainingJob S → Bool
held_by job_id body j =
    j.id == job_id
    && (is_running j.status
        && (eq_nat j.daemon_id body.daemon_id && eq_str j.claim_token body.claim_token))
