-- ===== src/Nornir/Train/Defs.antt =====
-- `_fit_model`, `_serialize` and `run_job`. What they use of scikit-learn and joblib is a record of
-- functions; `P` is the type of JSON values, `M` that of scores, and `none` an exception.
use grimnir.Base.{
  ℕ, not, Option, none, some, List, [], ◌∷◌, map, Str, codes, str_eq, length, lookup, insert,
  select, ℤ, pos, negsuc, ◌>>=◌,
}
use grimnir.Mimir.Features.{FeatureConfig, CsiRow, extract_features}
use grimnir.Nornir.Windows.{
  TrainingRow, Collected, training_set, no_training_windows, inconsistent_widths, extraction_failed,
  collect_windows,
}

-- What `train_test_split` returns.
pub record Split (V : Type 0) : Type 0 where
  pub x_train : List (List V)
  pub x_test : List (List V)
  pub y_train : List Str
  pub y_test : List Str

pub record Learner (V C P M : Type 0) : Type 0 where
  pub train_test_split : P → List (List V) → List Str → Option (Split V)
  pub fit : List (Str × P) → List (List V) → List Str → Option C
  pub predict : C → List (List V) → Option (List Str)
  pub accuracy_score : List Str → List Str → M
  pub f1_macro : List Str → List Str → M
  -- `sorted(clf.classes_.tolist())`
  pub classes : C → List Str
  pub dump : C → Option (List ℕ)

-- The metrics of `_fit_model`, without the duration.
pub record FitMetrics (M : Type 0) : Type 0 where
  pub accuracy : M
  pub f1_macro : M
  pub n_train_windows : ℕ
  pub n_test_windows : ℕ
  pub feature_dim : ℕ
  pub classes : List Str

pub record RunMetrics (M : Type 0) : Type 0 where
  pub fitted : FitMetrics M
  pub n_rows_fetched : ℕ
  pub window_size : ℕ
  pub feature_version : ℕ

abbrev pub default_window_size : ℕ
default_window_size = 50

abbrev pub feature_version : ℕ
feature_version = 1

-- `x.shape[1]`
abbrev pub feature_dim : {V : Type 0} → List (List V) → ℕ
feature_dim [] = 0
feature_dim (v ∷ _) = length v

abbrev pub or_default {ℓ} : {A : Type ℓ} → Option A → A → A
or_default none a = a
or_default (some b) _ = b

abbrev pub train_data : {F : Type 0} → Collected F → Option (List F × List Str × ℕ)
train_data (training_set x y n) = some (x, y, n)
train_data no_training_windows = none
train_data inconsistent_widths = none
train_data extraction_failed = none

-- `{**d, **e}`
abbrev pub merged : {P : Type 0} → List (Str × P) → List (Str × P) → List (Str × P)
merged d [] = d
merged d ((k, v) ∷ e) = merged (insert str_eq k v d) e

-- `d.pop(k, None)`
abbrev pub without : {P : Type 0} → Str → List (Str × P) → List (Str × P)
without k = select (λ e. not (str_eq e.0 k))

module _ {P : Type 0} (num : ℤ → P) (int : P → Option ℕ) where
  abbrev pub default_hyperparams : List (Str × P)
  default_hyperparams =
      (codes "n_estimators", num (pos 100))
      ∷ (codes "max_depth", num (pos 12))
      ∷ (codes "random_state", num (pos 42))
      ∷ (codes "n_jobs", num (negsuc 0))
      ∷ []

  unfoldable pub hyperparams_of : List (Str × P) → List (Str × P)
  hyperparams_of given = without (codes "window_size") (merged default_hyperparams given)

  unfoldable pub window_size_of : List (Str × P) → Option ℕ
  window_size_of given = elim (lookup str_eq (codes "window_size") given) [
    | none ↦ some default_window_size
    | some v ↦ int v
  ]

  module _ {V C M : Type 0} (learner : Learner V C P M) (mean_of var_of : List V → V) where
    unfoldable pub fit_model : List (List V) → List Str → List (Str × P) → Option (C × FitMetrics M)
    fit_model x y hyperparams = do
      s ←
          learner.train_test_split
            (or_default (lookup str_eq (codes "random_state") hyperparams) (num (pos 42))) x y
      clf ← learner.fit hyperparams s.x_train s.y_train
      y_pred ← learner.predict clf s.x_test
      some (
        clf,
        record {
          accuracy = learner.accuracy_score s.y_test y_pred;
          f1_macro = learner.f1_macro s.y_test y_pred;
          n_train_windows = length s.x_train;
          n_test_windows = length s.x_test;
          feature_dim = feature_dim x;
          classes = learner.classes clf;
        },
      )

    -- `extract_features` on a window of rows.
    abbrev pub extract : FeatureConfig → List (TrainingRow (CsiRow V)) → Option (List V)
    extract config window =
        extract_features mean_of var_of (map (λ (r : TrainingRow (CsiRow V)). r.sample) window)
          config

    -- `feature_config` is what the validation of the job's configuration gives, and `rows` what the
    -- stream of `iter_training_data` delivers.
    unfoldable pub run_job :
        Option FeatureConfig
        → List (Str × P)
        → Option (List (TrainingRow (CsiRow V)))
        → Option (List ℕ × RunMetrics M × FeatureConfig)
    unfolding fit_model
    run_job feature_config given rows = do
      config ← feature_config
      window_size ← window_size_of given
      fetched ← rows
      (x, y, row_count) ← train_data (collect_windows (extract config) length window_size fetched)
      (clf, metrics) ← fit_model x y (hyperparams_of given)
      model_bytes ← learner.dump clf
      some (
        model_bytes,
        record {
          fitted = metrics;
          n_rows_fetched = row_count;
          window_size = window_size;
          feature_version = feature_version;
        },
        config,
      )
