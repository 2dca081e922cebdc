-- ===== src/Volva/Loader/Refresh.antt =====
-- What `refresh_loop` (volva/src/volva/model_loader.py) leaves in the holder.
use grimnir.Base.{
  ℕ, ◌≡◌, refl, ap, subst, ◌∙◌, inl, inr, true, Option, none, some, List, [], ◌∷◌, ◌==◌, ==_iff,
  Bool-cases, Str,
}
use grimnir.Volva.Loader.Defs.{
  Response, transport_error, response, Meta, LoadedModel, Fetched, fetched, http_error, load_error,
  unexpected_error, is_success, sorted, checked_classifier, loaded, after_data, after_meta,
  fetch_active, refresh, refresh_loop,
}

module _ {C : Type 0} where
  abbrev pub id_of : Option (LoadedModel C) → Option ℕ
  id_of none = none
  id_of (some m) = some m.id

  -- The id of what the last fetch without an error found, or else the one to start from.
  abbrev pub last_id : Option ℕ → List (Fetched C) → Option ℕ
  last_id held [] = held
  last_id held (fetched latest ∷ fs) = last_id (id_of latest) fs
  last_id held (http_error ∷ fs) = last_id held fs
  last_id held (load_error ∷ fs) = last_id held fs
  last_id held (unexpected_error ∷ fs) = last_id held fs

  refresh-id_of :
      (latest : LoadedModel C) (holder : Option (LoadedModel C))
      → id_of (refresh (fetched (some latest)) holder) ≡ some latest.id
  unfolding refresh
  refresh-id_of latest none = refl
  refresh-id_of latest (some m) = elim (Bool-cases (m.id == latest.id)) [
    | inl t ↦ rw t (ap some ((==_iff m.id latest.id).0 t))
    | inr f ↦ rw f refl
  ]

  -- After any turns of the loop the holder has the model, by its id, that the last fetch without an
  -- error found, or none if that fetch found no active model: an error of any kind changes nothing.
  pub refresh_loop-last_id :
      (fs : List (Fetched C)) (holder : Option (LoadedModel C))
      → id_of (refresh_loop fs holder) ≡ last_id (id_of holder) fs
  unfolding refresh_loop refresh
  refresh_loop-last_id [] holder = refl
  refresh_loop-last_id (fetched none ∷ fs) holder = refresh_loop-last_id fs none
  refresh_loop-last_id (fetched (some latest) ∷ fs) holder =
      refresh_loop-last_id fs (refresh (fetched (some latest)) holder)
      ∙ ap (λ i. last_id i fs) (refresh-id_of latest holder)
  refresh_loop-last_id (http_error ∷ fs) holder = refresh_loop-last_id fs holder
  refresh_loop-last_id (load_error ∷ fs) holder = refresh_loop-last_id fs holder
  refresh_loop-last_id (unexpected_error ∷ fs) holder = refresh_loop-last_id fs holder

module _ {C : Type 0} (feature_version : ℕ) (load : List ℕ → Option C)
    (classes_ : C → Option (List Str)) where
  -- What a model is built from: an answer with bytes for its id, and what they load to.
  pub record Usable (get_data : ℕ → Response (List ℕ)) (m : LoadedModel C) : Type 0 where
    pub version_fits : m.version ≡ feature_version
    pub status : ℕ
    pub content : List ℕ
    pub served : get_data m.id ≡ response status (some content)
    pub succeeded : is_success status ≡ true
    pub from_blob : load content ≡ some m.classifier
    pub names : List Str
    pub has_classes : classes_ m.classifier ≡ some names
    pub in_order : m.classes ≡ sorted names

  abbrev built : Meta → C → List Str → LoadedModel C
  built meta clf names = record {
    id = meta.id;
    name = meta.name;
    classifier = clf;
    version = meta.version;
    classes = sorted names;
    created_at = meta.created_at;
  }

  checked_classifier-built :
      (meta : Meta) (clf : C) (o : Option (List Str)) (m : LoadedModel C)
      → checked_classifier feature_version load classes_ meta clf o ≡ fetched (some m)
      → (names : List Str) × (o ≡ some names) × (built meta clf names ≡ m)
  checked_classifier-built meta clf none m e = absurd (cc e)
  checked_classifier-built meta clf (some names) m e = (names, refl, cc e)

  loaded-built :
      (meta : Meta) (o : Option C) (m : LoadedModel C)
      → loaded feature_version load classes_ meta o ≡ fetched (some m)
      → (clf : C) × (names : List Str) × (o ≡ some clf)
        × (classes_ clf ≡ some names)
        × (built meta clf names ≡ m)
  loaded-built meta none m e = absurd (cc e)
  loaded-built meta (some clf) m e =
      let (names, has, same) = checked_classifier-built meta clf (classes_ clf) m e in
      (clf, names, refl, has, same)

  after_data-Usable :
      (meta : Meta) (get_data : ℕ → Response (List ℕ)) (r : Response (List ℕ)) (m : LoadedModel C)
      → get_data meta.id ≡ r
      → meta.version ≡ feature_version
      → after_data feature_version load classes_ meta r ≡ fetched (some m)
      → Usable get_data m
  after_data-Usable meta get_data transport_error m g v e = absurd (cc e)
  after_data-Usable meta get_data (response status none) m g v e = absurd (cc e)
  after_data-Usable meta get_data (response status (some content)) m g v e =
      elim (Bool-cases (is_success status)) [
        | inl t ↦
            let (clf, names, blob, has, same) = loaded-built meta (load content) m (rw t at e) in
            subst (Usable get_data) same (record {
              version_fits = v;
              status = status;
              content = content;
              served = g;
              succeeded = t;
              from_blob = blob;
              names = names;
              has_classes = has;
              in_order = refl;
            })
        | inr f ↦ absurd (cc (rw f at e))
      ]

  after_meta-Usable :
      (body : Option Meta) (get_data : ℕ → Response (List ℕ)) (m : LoadedModel C)
      → after_meta feature_version load classes_ body get_data ≡ fetched (some m)
      → Usable get_data m
  after_meta-Usable none get_data m e = absurd (cc e)
  after_meta-Usable (some meta) get_data m e = elim (Bool-cases (meta.version == feature_version)) [
    | inl t ↦
        after_data-Usable meta get_data (get_data meta.id) m refl
          ((==_iff meta.version feature_version).0 t) (rw t at e)
    | inr f ↦ absurd (cc (rw f at e))
  ]

  -- A fetch returns a model only if the model is usable: its feature version is that of this build,
  -- and its classifier, which has class names, was loaded from a successful answer with the bytes of
  -- its id, and whose class names it lists in order.
  pub fetch_active-Usable :
      (meta : Response Meta) (get_data : ℕ → Response (List ℕ)) (m : LoadedModel C)
      → fetch_active feature_version load classes_ meta get_data ≡ fetched (some m)
      → Usable get_data m
  unfolding fetch_active
  fetch_active-Usable transport_error get_data m e = absurd (cc e)
  fetch_active-Usable (response status body) get_data m e = elim (Bool-cases (status == 404)) [
    | inl t ↦ absurd (cc (rw t at e))
    | inr f ↦ elim (Bool-cases (is_success status)) [
      | inl t ↦ after_meta-Usable body get_data m (rw t at (rw f at e))
      | inr g ↦ absurd (cc (rw g at (rw f at e)))
    ]
  ]
