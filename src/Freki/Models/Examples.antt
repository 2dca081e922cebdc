-- ===== src/Freki/Models/Examples.antt =====
-- Two uploads and their activation. A JSON value is `true` for an object.
use grimnir.Base.{
  ℕ, ◌≡◌, refl, Bool, true, false, ◌==◌, Option, some, none, [], ◌∷◌, map, Str, codes, arith, ok,
  http,
}
use grimnir.Freki.Auth.{require_model_upload_secret}
use grimnir.Freki.Models.Defs.{
  TrainedModel, Registry, UploadForm, newest_first, list_models, project, active_model, model_data,
  upload_model, swap, activate_model, new_model,
}
use grimnir.Freki.Models.Table.{IdsWithin, find}
use grimnir.Freki.Models.Upload.{Uploadable, upload_model-model_data}
use grimnir.Freki.Models.Activate.{mark, activate_model-swaps, activate_model-blocked}

abbrev loads : Str → Option Bool
loads [] = none
loads (c ∷ s) = some (c == 0x7b)

abbrev form : UploadForm
form = record {
  name = codes "forest";
  metrics = codes "{}";
  feature_config = codes "{}";
  training_job_id = some 4;
  file = 1 ∷ 2 ∷ 3 ∷ [];
}

abbrev row : ℕ → Bool → TrainedModel Bool
row i active = record (new_model i i form true true) { is_active = active }

abbrev registry : Registry Bool
registry = record { rows = row 1 true ∷ row 2 false ∷ []; next_id = 3 }

program : Unit {0}
unfolding upload_model require_model_upload_secret model_data active_model list_models newest_first
    activate_model swap
program = tt

abbrev always : Bool → Bool
always b = true

uploadable : Uploadable loads (λ b. b) always [] none form (4 ∷ []) true true
unfolding program
uploadable = record {
  passed = refl;
  metrics_read = refl;
  config_read = refl;
  metrics_object = refl;
  config_object = refl;
  config_valid = refl;
  not_empty = omega arith;
  job_known = refl;
}

registry-IdsWithin : IdsWithin 0 3 registry.rows
registry-IdsWithin = (omega arith, (omega arith, omega arith))

upload_model-model_data_example :
    model_data 3 (upload_model loads (λ b. b) always [] none 9 form (4 ∷ []) registry).0
    ≡ ok (1 ∷ 2 ∷ 3 ∷ [])
upload_model-model_data_example =
    upload_model-model_data loads (λ b. b) always [] none 9 form (4 ∷ []) registry true true
      registry-IdsWithin uploadable

answered :
    (upload_model loads (λ b. b) always [] none 9 form (4 ∷ []) registry).1
    ≡ ok (project (new_model 3 9 form true true))
unfolding program
answered = refl

second : find 2 registry.rows ≡ some (row 2 false)
second = refl

activate_model-swaps_example :
    ((activate_model true 2 registry).0.rows ≡ map (mark 2) registry.rows)
    × ((activate_model true 2 registry).1 ≡ ok (project (mark 2 (row 2 false))))
    × (active_model (activate_model true 2 registry).0 ≡ ok (project (mark 2 (row 2 false))))
activate_model-swaps_example =
    activate_model-swaps 2 registry (row 2 false) registry-IdsWithin second

activate_model-blocked_example : activate_model false 2 registry ≡ (registry, http 500)
activate_model-blocked_example = activate_model-blocked 2 registry refl refl

listed : list_models 0 registry ≡ project (row 2 false) ∷ []
unfolding program
listed = refl
