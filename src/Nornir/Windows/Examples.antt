-- ===== src/Nornir/Windows/Examples.antt =====
-- Two receivers and a label that moves, with windows of two rows. A row's sample is a number, and the
-- features of a window are its samples.
use grimnir.Base.{
  ℕ, ◌≡◌, refl, Option, some, none, List, [], ◌∷◌, map, Str, str_eq, codes, arith, length, All,
  select,
}
use grimnir.Nornir.Windows.Defs.{
  TrainingRow, no_windows, window_step, raw_windows, extracted, training_set, no_training_windows,
  collect_windows,
}
use grimnir.Nornir.Windows.Homogeneous.{Homogeneous, raw_windows-Homogeneous}
use grimnir.Nornir.Windows.Stream.{single, from_receiver, of_receiver, raw_windows-single}

abbrev r : ℕ → Str → ℕ → TrainingRow ℕ
r receiver label sample = record { receiver_id = receiver; label = label; sample = sample }

abbrev hall : Str
hall = codes "hall"

abbrev den : Str
den = codes "den"

-- The half window of receiver 1 in the hall is given up when it moves to the den.
abbrev rows : List (TrainingRow ℕ)
rows = r 1 hall 10 ∷ r 2 hall 20 ∷ r 1 den 11 ∷ r 2 hall 21 ∷ r 1 den 12 ∷ r 2 hall 22 ∷ []

abbrev vectors : List (List ℕ)
vectors = (20 ∷ 21 ∷ []) ∷ (11 ∷ 12 ∷ []) ∷ []

abbrev features : List (TrainingRow ℕ) → Option (List ℕ)
features w = some (map (λ (x : TrainingRow ℕ). x.sample) w)

program : Unit {0}
unfolding window_step raw_windows extracted collect_windows str_eq
program = tt

collected : collect_windows features length 2 rows ≡ training_set vectors (hall ∷ den ∷ []) 6
unfolding program
collected = refl

too_short : collect_windows features length 9 rows ≡ no_training_windows
unfolding program
too_short = refl

raw_windows-Homogeneous_example : All (Homogeneous 2) (raw_windows 2 rows no_windows)
raw_windows-Homogeneous_example = raw_windows-Homogeneous 2 rows (omega arith)

raw_windows-single_example :
    select (of_receiver 2) (raw_windows 2 rows no_windows)
    ≡ single 2 (select (from_receiver 2) rows) [] none
raw_windows-single_example = raw_windows-single 2 rows 2 (omega arith)
