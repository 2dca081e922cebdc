-- ===== src/Freki/Models/Upload.antt =====
-- The upload of a model (freki/src/freki/routers/models.py) and its download.
use grimnir.Base.{
  ℕ, suc, ◌<◌, ◌≡◌, refl, Bool, true, false, Option, none, some, List, [], ◌∷◌, ◌++◌, arith, ◌==◌,
  ==_iff, ◌⊎◌, Str, select-append, length, Reply, ok, http,
}
use grimnir.Freki.Auth.{require_model_upload_secret, require_model_upload_secret-codes}
use grimnir.Freki.Models.Defs.{
  TrainedModel, ModelOut, Registry, UploadForm, project, model_data, job_exists, new_model,
  store_checked, upload_model, read_both,
}
use grimnir.Freki.Models.Table.{IdsWithin, select-above}

module _ {J : Type 0} (json_loads : Str → Option J) (is_object valid_config : J → Bool) where
  -- What the endpoint asks of an upload.
  pub record Uploadable (secret : Str) (provided : Option Str) (form : UploadForm) (jobs : List ℕ)
      (m f : J) : Type 0 where
    pub passed : require_model_upload_secret secret provided ≡ ok tt
    pub metrics_read : json_loads form.metrics ≡ some m
    pub config_read : json_loads form.feature_config ≡ some f
    pub metrics_object : is_object m ≡ true
    pub config_object : is_object f ≡ true
    pub config_valid : valid_config f ≡ true
    pub not_empty : 0 < length form.file
    pub job_known : job_exists jobs form.training_job_id ≡ true

  abbrev result : Registry J → ℕ → UploadForm → J → J → Registry J × Reply (ModelOut J)
  result t now form m f =
      let r : TrainedModel J = new_model t.next_id now form m f in
      (record { rows = t.rows ++ (r ∷ []); next_id = suc t.next_id }, ok (project r))

  -- An upload that passes the guard, whose two texts are JSON objects, the second a valid feature
  -- configuration, with a file that is not empty and a job that is known or not named, is stored as a
  -- new inactive row with the next id, and the answer is that row.
  pub upload_model-stored :
      (secret : Str) (provided : Option Str) (now : ℕ) (form : UploadForm) (jobs : List ℕ)
      (t : Registry J) (m f : J)
      → Uploadable secret provided form jobs m f
      → upload_model json_loads is_object valid_config secret provided now form jobs t
        ≡ result t now form m f
  unfolding upload_model
  upload_model-stored secret provided now form jobs t m f u =
      let sized : (length form.file == 0) ≡ false = ground (arith, u.not_empty) in
      rw (u.passed) (
        rw (u.metrics_read, u.config_read)
          (rw (u.metrics_object, u.config_object, u.config_valid) (rw (sized, u.job_known) refl)))

  -- The bytes of a stored upload are what GET /{model_id}/data serves for its id, when the ids of the
  -- table increase below the next one.
  pub upload_model-model_data :
      (secret : Str) (provided : Option Str) (now : ℕ) (form : UploadForm) (jobs : List ℕ)
      (t : Registry J) (m f : J)
      → IdsWithin 0 t.next_id t.rows
      → Uploadable secret provided form jobs m f
      → model_data t.next_id
          (upload_model json_loads is_object valid_config secret provided now form jobs t).0
        ≡ ok form.file
  unfolding model_data
  upload_model-model_data secret provided now form jobs t m f ids u =
      rw (upload_model-stored secret provided now form jobs t m f u) (
        rw (select-append (λ r. r.id == t.next_id) t.rows (new_model t.next_id now form m f ∷ [])) (
          rw (select-above 0 t.next_id t.rows ids) (rw ((==_iff t.next_id t.next_id).1 refl) refl)))

  store_checked-cases :
      (now : ℕ) (form : UploadForm) (jobs : List ℕ) (t : Registry J) (m f : J) (out : ModelOut J)
      → (store_checked json_loads is_object valid_config now form (some (m, f)) jobs t).1 ≡ ok out
      → (is_object m ≡ true)
        × (is_object f ≡ true)
        × (valid_config f ≡ true)
        × (0 < length form.file)
        × (job_exists jobs form.training_job_id ≡ true)
  store_checked-cases now form jobs t m f out e = ground arith

  -- An upload is answered with a model only if the endpoint's conditions hold for it.
  pub upload_model-ok :
      (secret : Str) (provided : Option Str) (now : ℕ) (form : UploadForm) (jobs : List ℕ)
      (t : Registry J) (out : ModelOut J)
      → (upload_model json_loads is_object valid_config secret provided now form jobs t).1 ≡ ok out
      → (m : J) × (f : J) × Uploadable secret provided form jobs m f
  unfolding upload_model
  upload_model-ok secret provided now form jobs t out e =
      guarded (require_model_upload_secret secret provided) refl (json_loads form.metrics) refl
        (json_loads form.feature_config) refl
    where
      guarded :
          (g : Reply (Unit {0}))
          → require_model_upload_secret secret provided ≡ g
          → (om : Option J) → json_loads form.metrics ≡ om
          → (of : Option J) → json_loads form.feature_config ≡ of
          → (m : J) × (f : J) × Uploadable secret provided form jobs m f
      guarded (http code) eg om em of ef = absurd (cc (rw eg at e))
      guarded (ok tt) eg none em of ef = absurd (cc (rw em at (rw eg at e)))
      guarded (ok tt) eg (some m) em none ef = absurd (cc (rw ef at (rw em at (rw eg at e))))
      guarded (ok tt) eg (some m) em (some f) ef =
          let (mo, fo, valid, sized, known) =
            store_checked-cases now form jobs t m f out (rw ef at (rw em at (rw eg at e))) in
          (
            m,
            f,
            record {
              passed = eg;
              metrics_read = em;
              config_read = ef;
              metrics_object = mo;
              config_object = fo;
              config_valid = valid;
              not_empty = sized;
              job_known = known;
            },
          )

  store_checked-codes :
      (now : ℕ) (form : UploadForm) (o : Option (J × J)) (jobs : List ℕ) (t : Registry J) (c : ℕ)
      → (store_checked json_loads is_object valid_config now form o jobs t).1 ≡ http c
      → (c ≡ 422) ⊎ (c ≡ 500)
  store_checked-codes now form none jobs t c e = ground arith
  store_checked-codes now form (some (m, f)) jobs t c e = ground arith

  -- No refusal of an upload has the status of a success.
  pub upload_model-codes :
      (secret : Str) (provided : Option Str) (now : ℕ) (form : UploadForm) (jobs : List ℕ)
      (t : Registry J) (c : ℕ)
      → (upload_model json_loads is_object valid_config secret provided now form jobs t).1 ≡ http c
      → (201 == c) ≡ false
  unfolding upload_model
  upload_model-codes secret provided now form jobs t c e =
      guarded (require_model_upload_secret secret provided) refl
    where
      guarded :
          (g : Reply (Unit {0}))
          → require_model_upload_secret secret provided ≡ g
          → (201 == c) ≡ false
      guarded (http code) eg =
          let codes = require_model_upload_secret-codes secret provided code eg in
          let same : code ≡ c = cc (rw eg at e) in ground (arith, codes, same)
      guarded (ok tt) eg =
          let codes =
            store_checked-codes now form
              (read_both json_loads is_object valid_config (json_loads form.metrics)
                (json_loads form.feature_config))
              jobs t c (rw eg at e) in
          ground (arith, codes)
