-- ===== src/Volva/Loader/Defs.antt =====
-- `fetch_active`, `refresh_loop` and `ModelHolder` of volva/src/volva/model_loader.py. `C` is the type of
-- what joblib loads; `load` stands for joblib.load and `none` for an exception in it.
use grimnir.Base.{
  ℕ, Bool, true, false, ◌&&◌, ◌||◌, Option, none, some, List, [], ◌∷◌, ltb, leb, ◌==◌,
  if◌then◌else◌, Str,
}

-- An HTTP exchange: the request fails, or an answer has a status and a body; `none` is a body that
-- cannot be read.
pub data Response (A : Type 0) : Type 0 where
  transport_error : Response A
  response : (status : ℕ) → Option A → Response A

-- The metadata that Freki returns. `version` is that of the feature configuration.
pub record Meta : Type 0 where
  pub id : ℕ
  pub name : Str
  pub version : ℕ
  pub created_at : ℕ

-- What the loader uses of a loaded object: its class names, when it has both attributes.
pub record LoadedModel (C : Type 0) : Type 0 where
  pub id : ℕ
  pub name : Str
  pub classifier : C
  pub version : ℕ
  pub classes : List Str
  pub created_at : ℕ

-- A model, no active model, or an exception of one of the three `except` clauses.
pub data Fetched (C : Type 0) : Type 0 where
  fetched : Option (LoadedModel C) → Fetched C
  http_error : Fetched C
  load_error : Fetched C
  unexpected_error : Fetched C

-- `raise_for_status` passes a status of 200 to 299.
abbrev pub is_success : ℕ → Bool
is_success status = leb 200 status && ltb status 300

-- `sorted` on texts, by code points.
unfoldable pub str_lt : Str → Str → Bool
str_lt [] [] = false
str_lt [] (_ ∷ _) = true
str_lt (_ ∷ _) [] = false
str_lt (a ∷ s) (b ∷ t) = ltb a b || (a == b && str_lt s t)

abbrev pub insert_class : Str → List Str → List Str
insert_class r [] = r ∷ []
insert_class r (x ∷ xs) =
    let rest = insert_class r xs in if str_lt x r then x ∷ rest else r ∷ x ∷ xs

unfoldable pub sorted : List Str → List Str
sorted [] = []
sorted (r ∷ rs) = insert_class r (sorted rs)

module _ {C : Type 0} (feature_version : ℕ) (load : List ℕ → Option C)
    (classes_ : C → Option (List Str)) where
  -- `classes_` is `none` for an object that lacks `predict` or `classes_`.
  abbrev pub checked_classifier : Meta → C → Option (List Str) → Fetched C
  checked_classifier meta clf none = load_error
  checked_classifier meta clf (some names) = fetched (
      some (record {
        id = meta.id;
        name = meta.name;
        classifier = clf;
        version = meta.version;
        classes = sorted names;
        created_at = meta.created_at;
      }))

  abbrev pub loaded : Meta → Option C → Fetched C
  loaded meta none = unexpected_error
  loaded meta (some clf) = checked_classifier meta clf (classes_ clf)

  abbrev pub after_data : Meta → Response (List ℕ) → Fetched C
  after_data meta transport_error = http_error
  after_data meta (response status none) = http_error
  after_data meta (response status (some content)) =
      if is_success status then loaded meta (load content) else http_error

  abbrev pub after_version : Meta → (ℕ → Response (List ℕ)) → Fetched C
  after_version meta get_data =
      if meta.version == feature_version then after_data meta (get_data meta.id) else load_error

  abbrev pub after_meta : Option Meta → (ℕ → Response (List ℕ)) → Fetched C
  after_meta none get_data = unexpected_error
  after_meta (some meta) get_data = after_version meta get_data

  unfoldable pub fetch_active : Response Meta → (ℕ → Response (List ℕ)) → Fetched C
  fetch_active transport_error get_data = http_error
  fetch_active (response status body) get_data =
      if status == 404
      then fetched none
      else if is_success status
      then after_meta body get_data
      else http_error

-- ModelHolder is the model that it holds. One turn of `refresh_loop`:
abbrev pub same_id : {C : Type 0} → Option (LoadedModel C) → LoadedModel C → Bool
same_id none latest = false
same_id (some m) latest = m.id == latest.id

unfoldable pub refresh : {C : Type 0} → Fetched C → Option (LoadedModel C) → Option (LoadedModel C)
refresh http_error holder = holder
refresh load_error holder = holder
refresh unexpected_error holder = holder
refresh (fetched none) holder = none
refresh (fetched (some latest)) holder = if same_id holder latest then holder else some latest

-- The turns until the loop is told to stop.
unfoldable pub refresh_loop :
    {C : Type 0} → List (Fetched C) → Option (LoadedModel C) → Option (LoadedModel C)
refresh_loop [] holder = holder
refresh_loop (f ∷ fs) holder = refresh_loop fs (refresh f holder)
