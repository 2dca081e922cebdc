-- ===== src/Nornir/Train/Runs.antt =====
-- What a training that gives a model has done.
use grimnir.Base.{
  ℕ, ◌<◌, ◌≡◌, refl, ap, subst, sym, ◌∙◌, inl, inr, Option, none, some, List, [], ◌∷◌, map,
  Bool-cases, Str, codes, str_eq, length, All, All-imp, lookup, ℤ, >>=-some,
}
use grimnir.Mimir.Features.{FeatureConfig, CsiRow}
use grimnir.Nornir.Windows.{
  TrainingRow, Collected, training_set, no_training_windows, inconsistent_widths, extraction_failed,
  raw_windows, no_windows, collect_windows,
}
use grimnir.Nornir.Windows.Collect.{Uniform, collect_windows-training_set}
use grimnir.Nornir.Train.Defs.{
  Learner, FitMetrics, RunMetrics, train_data, without, merged, default_hyperparams, feature_dim,
  feature_version, hyperparams_of, window_size_of, fit_model, extract, run_job,
}

train_data-some :
    {F : Type 0} (c : Collected F) (x : List F) (y : List Str) (n : ℕ)
    → train_data c ≡ some (x, y, n)
    → c ≡ training_set x y n
train_data-some (training_set x' y' n') x y n e = cc e
train_data-some no_training_windows x y n e = absurd (cc e)
train_data-some inconsistent_widths x y n e = absurd (cc e)
train_data-some extraction_failed x y n e = absurd (cc e)

lookup-without : {P : Type 0} (k : Str) (d : List (Str × P)) → lookup str_eq k (without k d) ≡ none
lookup-without k [] = refl
lookup-without k (e ∷ d) = elim (Bool-cases (str_eq (e.0) k)) [
  | inl t ↦ rw t (lookup-without k d)
  | inr f ↦ rw f (rw f (lookup-without k d))
]

module _ {P : Type 0} (num : ℤ → P) (int : P → Option ℕ) {V C M : Type 0}
    (learner : Learner V C P M) (mean_of var_of : List V → V) where
  -- How the model and its metrics came about.
  pub record Training (config : FeatureConfig) (given : List (Str × P)) (window_size : ℕ)
      (rows : List (TrainingRow (CsiRow V))) (bytes : List ℕ) (m : RunMetrics M) : Type 0 where
    pub x : List (List V)
    pub y : List Str
    pub clf : C
    pub vectors :
        map (λ v. let o : Option (List V) = some v in o) x
        ≡ map
            (λ (e : List (TrainingRow (CsiRow V)) × Str).
              extract num int learner mean_of var_of config e.0)
            (raw_windows window_size rows no_windows)
    pub targets :
        y
        ≡ map
            (λ (e : List (TrainingRow (CsiRow V)) × Str). e.1)
            (raw_windows window_size rows no_windows)
    pub some_window : 0 < length x
    pub fitted :
        fit_model num int learner mean_of var_of x y (hyperparams_of num int given)
        ≡ some (clf, m.fitted)
    pub dumped : learner.dump clf ≡ some bytes
    pub counted : m.n_rows_fetched ≡ length rows
    pub sized : m.window_size ≡ window_size
    pub dimension : All (λ v. length v ≡ m.fitted.feature_dim) x
    pub no_knob : lookup str_eq (codes "window_size") (hyperparams_of num int given) ≡ none

  fit_model-feature_dim :
      (x : List (List V)) (y : List Str) (h : List (Str × P)) (r : C × FitMetrics M)
      → fit_model num int learner mean_of var_of x y h ≡ some r
      → r.1.feature_dim ≡ feature_dim x
  unfolding fit_model
  fit_model-feature_dim x y h r e =
      let (s, e0, e1) = >>=-some (learner.train_test_split _ x y) _ e in
      let (clf, e2, e3) = >>=-some (learner.fit h s.x_train s.y_train) _ e1 in
      let (pred, e4, e5) = >>=-some (learner.predict clf s.x_test) _ e3 in
      ap
        (λ (o : Option (C × FitMetrics M)). elim o [
          | none ↦ feature_dim x
          | some q ↦ q.1.feature_dim
        ])
        (sym e5)

  all_wide :
      (x : List (List V)) (n : ℕ) → n ≡ feature_dim x → Uniform length x → All (λ v. length v ≡ n) x
  all_wide [] n e u = tt
  all_wide (v ∷ x) n e u = (sym e, All-imp (λ w. length w ≡ n) x (λ w same. same ∙ sym e) u)

  assembled :
      (config config' : FeatureConfig) (given : List (Str × P)) (size : ℕ)
      (rows : List (TrainingRow (CsiRow V))) (x : List (List V)) (y : List Str) (n : ℕ) (clf : C)
      (fm : FitMetrics M) (bytes bytes' : List ℕ) (m : RunMetrics M)
      → collect_windows (extract num int learner mean_of var_of config) length size rows
        ≡ training_set x y n
      → fit_model num int learner mean_of var_of x y (hyperparams_of num int given) ≡ some (clf, fm)
      → learner.dump clf ≡ some bytes
      → (let o : Option (List ℕ × RunMetrics M × FeatureConfig) = some (
        bytes,
        record {
          fitted = fm;
          n_rows_fetched = n;
          window_size = size;
          feature_version = feature_version;
        },
        config,
      ) in
          o)
        ≡ some (bytes', m, config')
      → (config ≡ config') × Training config given size rows bytes' m
  unfolding hyperparams_of
  assembled config config' given size rows x y n clf fm bytes bytes' m collected fit dump out =
      let (vectors, targets, count, some_window, uniform) =
        collect_windows-training_set (extract num int learner mean_of var_of config) length size
          rows x y n collected in
      let same_bytes : bytes ≡ bytes' = cc out in
      let metrics : record {
        fitted = fm;
        n_rows_fetched = n;
        window_size = size;
        feature_version = feature_version;
      }
          ≡ m =
        cc out in
      let same_fit : fm ≡ m.fitted = ap (λ (r : RunMetrics M). r.fitted) metrics in
      let wide : m.fitted.feature_dim ≡ feature_dim x =
        ap (λ (r : FitMetrics M). r.feature_dim) (sym same_fit)
        ∙ fit_model-feature_dim x y (hyperparams_of num int given) (clf, fm) fit in
      (
        cc out,
        record {
          x = x;
          y = y;
          clf = clf;
          vectors = vectors;
          targets = targets;
          some_window = some_window;
          fitted = fit ∙ ap (λ r. some (clf, r)) same_fit;
          dumped = dump ∙ ap some same_bytes;
          counted = ap (λ (r : RunMetrics M). r.n_rows_fetched) (sym metrics) ∙ count;
          sized = ap (λ (r : RunMetrics M). r.window_size) (sym metrics);
          dimension = all_wide x m.fitted.feature_dim wide uniform;
          no_knob =
              lookup-without (codes "window_size") (merged (default_hyperparams num int) given);
        },
      )

  -- A training that gives a model has read all rows of the stream, cut them into windows of the wanted
  -- size, extracted one vector of one common length from each, with the window's label as its target,
  -- fitted the model to them without the windowing parameter, and serialized that model.
  pub run_job-Training :
      (feature_config : Option FeatureConfig) (given : List (Str × P))
      (stream : Option (List (TrainingRow (CsiRow V)))) (bytes : List ℕ) (m : RunMetrics M)
      (config : FeatureConfig)
      → run_job num int learner mean_of var_of feature_config given stream ≡ some (bytes, m, config)
      → (window_size : ℕ) × (rows : List (TrainingRow (CsiRow V))) × (feature_config ≡ some config)
        × (stream ≡ some rows)
        × (window_size_of num int given ≡ some window_size)
        × Training config given window_size rows bytes m
  unfolding run_job hyperparams_of
  run_job-Training feature_config given stream bytes m config e =
      let (config', c0, e1) = >>=-some feature_config _ e in
      let (size, c1, e2) = >>=-some (window_size_of num int given) _ e1 in
      let (rows, c2, e3) = >>=-some stream _ e2 in
      let ((x, y, n), c3, e4) =
        >>=-some
          (train_data
            (collect_windows (extract num int learner mean_of var_of config') length size rows))
          _ e3 in
      let ((clf, fm), c4, e5) =
        >>=-some (fit_model num int learner mean_of var_of x y (hyperparams_of num int given)) _
          e4 in
      let (model, c5, e6) = >>=-some (learner.dump clf) _ e5 in
      let (same, training) =
        assembled config' config given size rows x y n clf fm model bytes m
          (train_data-some _ x y n c3) c4 c5 e6 in
      (
        size,
        rows,
        c0 ∙ ap some same,
        c2,
        c1,
        subst (λ c. Training c given size rows bytes m) same training,
      )
