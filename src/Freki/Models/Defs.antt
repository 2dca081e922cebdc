-- ===== src/Freki/Models/Defs.antt =====
-- The endpoints of freki/src/freki/routers/models.py. `J` is the type of JSON values; reading a text
-- as JSON and `FeatureConfig.model_validate` are arguments.
use grimnir.Base.{
  ℕ, suc, Bool, true, false, not, ◌&&◌, ◌||◌, Option, none, some, List, [], ◌∷◌, ◌++◌, map, ltb,
  leb, ◌==◌, if◌then◌else◌, min, max, Str, length, take, select, update, exists, Reply, ok, http,
}
use grimnir.Freki.Auth.{require_model_upload_secret}

-- A row of `trained_models`.
pub record TrainedModel (J : Type 0) : Type 0 where
  pub id : ℕ
  pub name : Str
  pub training_job_id : Option ℕ
  pub is_active : Bool
  pub metrics : J
  pub feature_config : J
  pub model_data : List ℕ
  pub created_at : ℕ

-- class ModelOut
pub record ModelOut (J : Type 0) : Type 0 where
  pub id : ℕ
  pub name : Str
  pub training_job_id : Option ℕ
  pub is_active : Bool
  pub metrics : J
  pub feature_config : J
  pub size_bytes : ℕ
  pub created_at : ℕ

-- The table with the next value of its sequence.
pub record Registry (J : Type 0) : Type 0 where
  pub rows : List (TrainedModel J)
  pub next_id : ℕ

abbrev pub first_or_404 : {A : Type 0} → List A → Reply A
first_or_404 [] = http 404
first_or_404 (x ∷ _) = ok x

-- The form of an upload.
pub record UploadForm : Type 0 where
  pub name : Str
  pub metrics : Str
  pub feature_config : Str
  pub training_job_id : Option ℕ
  pub file : List ℕ

-- The foreign key on `training_job_id`.
abbrev pub job_exists : List ℕ → Option ℕ → Bool
job_exists jobs none = true
job_exists jobs (some j) = exists (λ i. i == j) jobs

module _ {J : Type 0} where
  -- The projection that leaves the blob out.
  abbrev pub project : TrainedModel J → ModelOut J
  project r = record {
    id = r.id;
    name = r.name;
    training_job_id = r.training_job_id;
    is_active = r.is_active;
    metrics = r.metrics;
    feature_config = r.feature_config;
    size_bytes = length r.model_data;
    created_at = r.created_at;
  }

  -- `ORDER BY created_at DESC`, by insertion; rows of one time keep their order.
  abbrev pub insert_newest : TrainedModel J → List (TrainedModel J) → List (TrainedModel J)
  insert_newest r [] = r ∷ []
  insert_newest r (x ∷ xs) =
      let rest = insert_newest r xs in
      if ltb r.created_at x.created_at then x ∷ rest else r ∷ x ∷ xs

  unfoldable pub newest_first : List (TrainedModel J) → List (TrainedModel J)
  newest_first [] = []
  newest_first (r ∷ rows) = insert_newest r (newest_first rows)

  unfoldable pub list_models : ℕ → Registry J → List (ModelOut J)
  list_models limit t = map project (take (max 1 (min limit 500)) (newest_first t.rows))

  unfoldable pub active_model : Registry J → Reply (ModelOut J)
  active_model t = first_or_404 (map project (select (λ r. r.is_active) t.rows))

  unfoldable pub model_data : ℕ → Registry J → Reply (List ℕ)
  model_data model_id t =
      first_or_404
        (map (λ (r : TrainedModel J). r.model_data) (select (λ r. r.id == model_id) t.rows))

  abbrev pub new_model : ℕ → ℕ → UploadForm → J → J → TrainedModel J
  new_model id now form metrics feature_config = record {
    id = id;
    name = form.name;
    training_job_id = form.training_job_id;
    is_active = false;
    metrics = metrics;
    feature_config = feature_config;
    model_data = form.file;
    created_at = now;
  }

  abbrev pub stored_model :
      ℕ → ℕ → UploadForm → J → J → List ℕ → Registry J → Registry J × Reply (ModelOut J)
  stored_model now id form metrics feature_config jobs t =
      if job_exists jobs form.training_job_id
      then (let r : TrainedModel J = new_model id now form metrics feature_config in
          (record { rows = t.rows ++ (r ∷ []); next_id = suc id }, ok (project r)))
      else (record t { next_id = suc id }, http 500)

  module _ (json_loads : Str → Option J) (is_object valid_config : J → Bool) where
    -- Both texts are read inside one `try`.
    abbrev pub read_both : Option J → Option J → Option (J × J)
    read_both none _ = none
    read_both (some m) none = none
    read_both (some m) (some f) = some (m, f)

    abbrev pub store_checked :
        ℕ → UploadForm → Option (J × J) → List ℕ → Registry J → Registry J × Reply (ModelOut J)
    store_checked now form none jobs t = (t, http 422)
    store_checked now form (some (m, f)) jobs t =
        if not (is_object m) || not (is_object f)
        then (t, http 422)
        else if not (valid_config f)
        then (t, http 422)
        else if length form.file == 0
        then (t, http 422)
        else stored_model now t.next_id form m f jobs t

    abbrev pub guarded_upload :
        Reply (Unit {0}) → ℕ → UploadForm → List ℕ → Registry J → Registry J × Reply (ModelOut J)
    guarded_upload (http code) now form jobs t = (t, http code)
    guarded_upload (ok _) now form jobs t =
        store_checked now form
          (read_both (json_loads form.metrics) (json_loads form.feature_config)) jobs t

    -- `jobs` are the ids of the training jobs.
    unfoldable pub upload_model :
        Str → Option Str → ℕ → UploadForm → List ℕ → Registry J → Registry J × Reply (ModelOut J)
    upload_model secret provided now form jobs t =
        guarded_upload (require_model_upload_secret secret provided) now form jobs t

  -- The partial unique index `trained_models_one_active`.
  abbrev pub index_holds : List (TrainedModel J) → Bool
  index_holds rows = leb (length (select (λ r. r.is_active) rows)) 1

  -- The sub-statement `cleared`.
  abbrev pub clear_others : ℕ → List (TrainedModel J) → List (TrainedModel J)
  clear_others model_id =
      update (λ r. r.is_active && not (r.id == model_id)) (λ r. record r { is_active = false })

  -- The outer UPDATE.
  abbrev pub set_active : ℕ → List (TrainedModel J) → List (TrainedModel J)
  set_active model_id = update (λ r. r.id == model_id) (λ r. record r { is_active = true })

  -- PostgreSQL leaves open in which order the two updates of the statement run. It checks the index
  -- when a row becomes active, which only the outer one does; `none` is its violation.
  unfoldable pub swap : Bool → ℕ → List (TrainedModel J) → Option (List (TrainedModel J))
  swap true model_id rows =
      let rows' = set_active model_id (clear_others model_id rows) in
      if index_holds rows' then some rows' else none
  swap false model_id rows =
      let rows' = set_active model_id rows in
      if index_holds rows' then some (clear_others model_id rows') else none

  abbrev pub committed :
      ℕ → Option (List (TrainedModel J)) → Registry J → Registry J × Reply (ModelOut J)
  committed model_id none t = (t, http 500)
  committed model_id (some rows) t =
      (record t { rows = rows }, first_or_404 (map project (select (λ r. r.id == model_id) rows)))

  unfoldable pub activate_model : Bool → ℕ → Registry J → Registry J × Reply (ModelOut J)
  activate_model cleared_first model_id t =
      if exists (λ r. r.id == model_id) t.rows
      then committed model_id (swap cleared_first model_id t.rows) t
      else (t, http 404)
