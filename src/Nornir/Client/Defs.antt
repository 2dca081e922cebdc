-- ===== src/Nornir/Client/Defs.antt =====
-- class FrekiClient. A server is what its requests lead to on a state `W`; a call of the client
-- returns, raises FrekiError, or raises another exception (of httpx, or of reading JSON).
use grimnir.Base.{
  ℕ, not, Option, none, some, List, [], ◌∷◌, ◌++◌, ◌==◌, if◌then◌else◌, Str, codes, take, exists,
}
use grimnir.Freki.Jobs.{JobControlBody, TrainingJob}
use grimnir.Freki.Models.{UploadForm}

-- A response: its status, its text, and what its text is as JSON.
pub record HttpResponse (A : Type 0) : Type 0 where
  pub status : ℕ
  pub text : Str
  pub json : Option A

-- What becomes of one HTTP request: a response, or an exception of httpx.
pub data Exchange (A : Type 0) : Type 0 where
  responded : HttpResponse A → Exchange A
  transport_error : Exchange A

pub record FrekiError : Type 0 where
  pub method : Str
  pub url : Str
  pub status : ℕ
  pub body : Str

pub data Outcome (A : Type 0) : Type 0 where
  done : A → Outcome A
  freki_error : FrekiError → Outcome A
  exception : Outcome A

-- `str(exc)`; `str_int` renders an integer.
abbrev pub message : (ℕ → Str) → FrekiError → Str
message str_int e =
    e.method
    ++ codes " "
    ++ e.url
    ++ codes " → "
    ++ str_int e.status
    ++ codes ": "
    ++ take 200 e.body

-- The part of class ClaimedJobOut that the daemon reads.
pub record ClaimedJob (S : Type 0) : Type 0 where
  pub id : ℕ
  pub spec : S
  pub claim_token : Str

-- The requests that the client sends, each with the value of its secret header, over the state of the
-- server: `S` is the type of job specifications, `O` that of the answers to an upload.
pub record Server (S O W : Type 0) : Type 0 where
  pub list_jobs : ℕ → W → Exchange (List (TrainingJob S)) × W
  pub claim : Option Str → ℕ → ℕ → W → Exchange (ClaimedJob S) × W
  pub heartbeat : Option Str → ℕ → JobControlBody → W → Exchange (TrainingJob S) × W
  pub complete : Option Str → ℕ → JobControlBody → W → Exchange (TrainingJob S) × W
  pub fail : Option Str → ℕ → JobControlBody → Str → W → Exchange (TrainingJob S) × W
  pub upload : Option Str → UploadForm → W → Exchange O × W

-- `secret or None`
abbrev pub or_none : Str → Option Str
or_none [] = none
or_none (c ∷ s) = some (c ∷ s)

pub record FrekiClient : Type 0 where
  pub ml_control_shared_secret : Option Str
  pub model_upload_shared_secret : Option Str

abbrev pub new_client : Str → Str → FrekiClient
new_client ml_control model_upload = record {
  ml_control_shared_secret = or_none ml_control;
  model_upload_shared_secret = or_none model_upload;
}

module _ {A W : Type 0} where
  -- `_request` on what the exchange ended in.
  abbrev pub request : Str → Str → List ℕ → Exchange A × W → Outcome (HttpResponse A) × W
  request method path expected (transport_error, w) = (exception, w)
  request method path expected (responded r, w) = (
    if not (exists (λ s. s == r.status) expected)
        then freki_error (record { method = method; url = path; status = r.status; body = r.text })
        else done r,
    w,
  )

  -- `return response.json()`
  abbrev pub json : Outcome (HttpResponse A) × W → Outcome A × W
  json (done r, w) = (elim r.json [ some a ↦ done a | none ↦ exception ], w)
  json (freki_error e, w) = (freki_error e, w)
  json (exception, w) = (exception, w)

  -- A call whose response is not read.
  abbrev pub unread : Outcome (HttpResponse A) × W → Outcome (Unit {0}) × W
  unread (done _, w) = (done tt, w)
  unread (freki_error e, w) = (freki_error e, w)
  unread (exception, w) = (exception, w)

  -- `claim_job` takes a 409 for a job that someone else has.
  abbrev pub unless_conflict : Outcome A × W → Outcome (Option A) × W
  unless_conflict (done a, w) = (done (some a), w)
  unless_conflict (freki_error e, w) = (if e.status == 409 then done none else freki_error e, w)
  unless_conflict (exception, w) = (exception, w)

-- The default of `expected`.
abbrev pub success : List ℕ
success = 200 ∷ 201 ∷ 204 ∷ []

abbrev pub job_path : (ℕ → Str) → ℕ → Str → Str
job_path str_int job_id action =
    codes "/api/training-jobs/" ++ str_int job_id ++ codes "/" ++ action

module _ {S O W : Type 0} (server : Server S O W) (str_int : ℕ → Str) (client : FrekiClient) where
  -- The header has the shared secret when one is set.
  abbrev pub ml_control_headers : Option Str
  ml_control_headers = client.ml_control_shared_secret

  unfoldable pub list_queued_jobs : ℕ → W → Outcome (List (TrainingJob S)) × W
  list_queued_jobs limit w =
      json (request (codes "GET") (codes "/api/training-jobs") success (server.list_jobs limit w))

  unfoldable pub claim_job : ℕ → ℕ → W → Outcome (Option (ClaimedJob S)) × W
  claim_job job_id daemon_id w = unless_conflict (
      json (
        request (codes "POST") (job_path str_int job_id (codes "claim")) success
          (server.claim ml_control_headers job_id daemon_id w)))

  unfoldable pub heartbeat_job : ℕ → ℕ → Str → W → Outcome (Unit {0}) × W
  heartbeat_job job_id daemon_id claim_token w = unread (
      request (codes "POST") (job_path str_int job_id (codes "heartbeat")) success (
        server.heartbeat ml_control_headers job_id
          (record { daemon_id = daemon_id; claim_token = claim_token }) w))

  unfoldable pub complete_job : ℕ → ℕ → Str → W → Outcome (Unit {0}) × W
  complete_job job_id daemon_id claim_token w = unread (
      request (codes "POST") (job_path str_int job_id (codes "complete")) success (
        server.complete ml_control_headers job_id
          (record { daemon_id = daemon_id; claim_token = claim_token }) w))

  unfoldable pub fail_job : ℕ → ℕ → Str → Str → W → Outcome (Unit {0}) × W
  fail_job job_id daemon_id claim_token error w = unread (
      request (codes "POST") (job_path str_int job_id (codes "fail")) success (
        server.fail ml_control_headers job_id
          (record { daemon_id = daemon_id; claim_token = claim_token }) (take 2000 error) w))

  -- `metrics` and `feature_config` are given as `json.dumps` writes them.
  unfoldable pub upload_model : UploadForm → W → Outcome O × W
  upload_model form w = json (
      request (codes "POST") (codes "/api/models") (201 ∷ [])
        (server.upload client.model_upload_shared_secret form w))
