-- ===== src/Nornir/Client/Endpoints.antt =====
-- Freki as a server of that interface: the handlers of Freki/Jobs and Freki/Models behind a network
-- that may lose requests and responses, with other clients at work between the requests.
use grimnir.Base.{
  ℕ, suc, Option, none, some, map, Str, Reply, ok, http, min, max, take, List, [], ◌∷◌, Bool,
  if◌then◌else◌, select, ltb,
}
use grimnir.Freki.Jobs.{
  Db, TrainingJob, claim_job, heartbeat_job, complete_job, fail_job, is_queued,
}
use grimnir.Freki.Models.{Registry, ModelOut, upload_model}
use grimnir.Nornir.Client.Defs.{Exchange, responded, transport_error, ClaimedJob, Server}

-- The two tables, and how many requests of this client have been sent.
pub record Backend (S J : Type 0) : Type 0 where
  pub db : Db S
  pub registry : Registry J
  pub served : ℕ

pub data Fate : Type 0 where
  delivered request_lost response_lost : Fate

-- `ORDER BY created_at DESC`, by insertion; rows of one time keep their order.
abbrev pub insert_newest :
    {S : Type 0} → TrainingJob S → List (TrainingJob S) → List (TrainingJob S)
insert_newest j [] = j ∷ []
insert_newest j (x ∷ xs) =
    let rest = insert_newest j xs in if ltb j.created_at x.created_at then x ∷ rest else j ∷ x ∷ xs

abbrev pub newest_first : {S : Type 0} → List (TrainingJob S) → List (TrainingJob S)
newest_first [] = []
newest_first (j ∷ js) = insert_newest j (newest_first js)

abbrev pub with_status :
    {S : Type 0} → Option (TrainingJob S → Bool) → List (TrainingJob S) → List (TrainingJob S)
with_status none jobs = jobs
with_status (some p) jobs = select p jobs

-- `list_jobs` of routers/training_jobs.py; `status` is the test for the wanted status.
unfoldable pub list_jobs :
    {S : Type 0} → Option (TrainingJob S → Bool) → ℕ → Db S → List (TrainingJob S)
list_jobs status limit db = take (max 1 (min limit 500)) (newest_first (with_status status db.jobs))

-- A validated response of class ClaimedJobOut: without a token the validation fails.
abbrev pub claimed_out : {S : Type 0} → Reply (TrainingJob S) → Reply (ClaimedJob S)
claimed_out (http code) = http code
claimed_out (ok j) = elim j.claim_token [
  | none ↦ http 500
  | some token ↦ ok (record { id = j.id; spec = j.spec; claim_token = token })
]

-- `text` is the body that FastAPI writes for an error.
abbrev pub respond : {A : Type 0} → (ℕ → Str) → ℕ → Reply A → Exchange A
respond text status (ok a) = responded (record { status = status; text = []; json = some a })
respond text status (http code) =
    responded (record { status = code; text = text code; json = none })

-- What surrounds the handlers: the configured secrets, the server's clock and its fresh tokens at each
-- request, the reading of JSON, the fate of each request, and what others do before it.
pub record Setting (S J : Type 0) : Type 0 where
  pub ml_secret : Str
  pub upload_secret : Str
  pub now : ℕ → ℕ
  pub token : ℕ → Str
  pub text : ℕ → Str
  pub json_loads : Str → Option J
  pub is_object : J → Bool
  pub valid_config : J → Bool
  pub fate : ℕ → Fate
  pub others : ℕ → Backend S J → Backend S J

module _ {S J : Type 0} (setting : Setting S J) where
  abbrev pub counted : Backend S J → Backend S J
  counted w = record w { served = suc w.served }

  -- One request under its fate: `handler` is what the endpoint makes of the state.
  abbrev pub sent :
      {A : Type 0} → Fate → Backend S J → Exchange A × Backend S J → Exchange A × Backend S J
  sent delivered w (r, w') = (r, counted w')
  sent request_lost w (r, w') = (transport_error, counted w)
  sent response_lost w (r, w') = (transport_error, counted w')

  abbrev pub on_db : {A : Type 0} → ℕ → Backend S J → Reply A × Db S → Exchange A × Backend S J
  on_db status w (r, db) = (respond setting.text status r, record w { db = db })

  abbrev pub on_registry :
      {A : Type 0} → ℕ → Backend S J → Registry J × Reply A → Exchange A × Backend S J
  on_registry status w (registry, r) =
      (respond setting.text status r, record w { registry = registry })

  abbrev pub exchange :
      {A : Type 0}
      → (Backend S J → Exchange A × Backend S J)
      → Backend S J
      → Exchange A × Backend S J
  exchange handler w =
      let w' = setting.others w.served w in sent (setting.fate w.served) w' (handler w')

  abbrev pub claimed_pair : Reply (TrainingJob S) × Db S → Reply (ClaimedJob S) × Db S
  claimed_pair (r, db) = (claimed_out r, db)

  abbrev pub freki : Server S (ModelOut J) (Backend S J)
  freki = record {
    list_jobs = λ limit.
        exchange λ w. on_db 200 w (ok (list_jobs (some λ j. is_queued j.status) limit w.db), w.db);
    claim = λ provided job_id daemon_id. exchange λ w. on_db 200 w (
        claimed_pair (
          claim_job setting.ml_secret provided job_id daemon_id (setting.token w.served)
            (setting.now w.served) w.db));
    heartbeat = λ provided job_id body. exchange λ w.
        on_db 200 w
          (heartbeat_job setting.ml_secret provided body job_id (setting.now w.served) w.db);
    complete = λ provided job_id body. exchange λ w.
        on_db 200 w
          (complete_job setting.ml_secret provided body job_id (setting.now w.served) w.db);
    fail = λ provided job_id body error. exchange λ w.
        on_db 200 w
          (fail_job setting.ml_secret provided body error job_id (setting.now w.served) w.db);
    upload = λ provided form. exchange λ w. on_registry 201 w (
        upload_model setting.json_loads setting.is_object setting.valid_config setting.upload_secret
          provided (setting.now w.served) form (map (λ (j : TrainingJob S). j.id) w.db.jobs)
          w.registry);
  }
