-- ===== src/Nornir/Train/Examples.antt =====
-- A training with a learner that counts its windows, and the theorem at it.
use grimnir.Base.{
  ℕ, ◌≡◌, refl, true, false, none, some, List, [], ◌∷◌, map, ℤ, pos, negsuc, Str, codes, str_eq,
  length,
}
use grimnir.Mimir.Features.{mean, FeatureConfig, CsiRow, extract_features, apply_stats}
use grimnir.Nornir.Windows.{TrainingRow, window_step, raw_windows, extracted, collect_windows}
use grimnir.Nornir.Train.Defs.{
  Learner, RunMetrics, hyperparams_of, window_size_of, fit_model, run_job,
}
use grimnir.Nornir.Train.Runs.{Training, run_job-Training}

abbrev num : ℤ → ℕ
num (pos n) = n
num (negsuc _) = 0

-- The test windows are those of the training; the model is the number of its windows.
abbrev counting : Learner ℕ ℕ ℕ ℕ
counting = record {
  train_test_split = λ seed x y. some (record { x_train = x; x_test = x; y_train = y; y_test = y });
  fit = λ h x y. some (length x);
  predict = λ clf x. some (map (λ _. codes "hall") x);
  accuracy_score = λ y p. length y;
  f1_macro = λ y p. length p;
  classes = λ clf. codes "hall" ∷ [];
  dump = λ clf. some (clf ∷ []);
}

abbrev config : FeatureConfig
config = record { version = 1; stats = mean ∷ []; include_amplitude = true; include_phase = false }

abbrev row : ℕ → TrainingRow (CsiRow ℕ)
row n = record {
  receiver_id = 1;
  label = codes "hall";
  sample = record { amplitude = n ∷ n ∷ []; phase = [] };
}

abbrev rows : List (TrainingRow (CsiRow ℕ))
rows = row 1 ∷ row 2 ∷ row 3 ∷ row 4 ∷ row 5 ∷ []

-- Windows of two rows.
abbrev given : List (Str × ℕ)
given = (codes "window_size", 2) ∷ []

abbrev metrics : RunMetrics ℕ
metrics = record {
  fitted = record {
    accuracy = 2;
    f1_macro = 2;
    n_train_windows = 2;
    n_test_windows = 2;
    feature_dim = 2;
    classes = codes "hall" ∷ [];
  };
  n_rows_fetched = 5;
  window_size = 2;
  feature_version = 1;
}

program : Unit {0}
unfolding run_job fit_model hyperparams_of window_size_of collect_windows window_step raw_windows
    extracted extract_features apply_stats str_eq
program = tt

two_windows :
    run_job num some counting length length (some config) given (some rows)
    ≡ some (2 ∷ [], metrics, config)
unfolding program
two_windows = refl

no_rows : run_job num some counting length length (some config) given (some []) ≡ none
unfolding program
no_rows = refl

run_job-Training_example :
    (window_size : ℕ) × (fetched : List (TrainingRow (CsiRow ℕ))) × (some config ≡ some config)
    × (some rows ≡ some fetched)
    × (window_size_of num some given ≡ some window_size)
    × Training num some counting length length config given window_size fetched (2 ∷ []) metrics
run_job-Training_example =
    run_job-Training num some counting length length (some config) given (some rows) (2 ∷ [])
      metrics config two_windows
