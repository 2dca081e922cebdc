-- ===== src/Mimir/Features/Examples.antt =====
-- Feature vectors of small windows, and the theorems at one of them.
use grimnir.Base.{ℕ, ◌+◌, ◌≡◌, ◌↔◌, refl, true, false, none, some, List, [], ◌∷◌, length}
use grimnir.Mimir.Features.Defs.{
  mean, var, FeatureConfig, CsiRow, extract_features, apply_stats, model_validate,
}
use grimnir.Mimir.Features.Shape.{Uniform, Extracted, extract_features-length}
use grimnir.Mimir.Features.Used.{extract_features-some_iff}

abbrev total : List ℕ → ℕ
total [] = 0
total (x ∷ xs) = x + total xs

abbrev both : FeatureConfig
both = record {
  version = 1;
  stats = mean ∷ var ∷ [];
  include_amplitude = true;
  include_phase = true;
}

abbrev csi : List ℕ → List ℕ → CsiRow ℕ
csi amplitude phase = record { amplitude = amplitude; phase = phase }

abbrev first : CsiRow ℕ
first = csi (1 ∷ 2 ∷ []) (5 ∷ 6 ∷ [])

abbrev later : List (CsiRow ℕ)
later = csi (3 ∷ 4 ∷ []) (7 ∷ 8 ∷ []) ∷ []

program : Unit {0}
unfolding extract_features apply_stats model_validate
program = tt

-- The sums and the counts of the columns stand for the two statistics.
vector :
    extract_features total length (first ∷ later) both ≡ some (4 ∷ 6 ∷ 2 ∷ 2 ∷ 12 ∷ 14 ∷ 2 ∷ 2 ∷ [])
unfolding program
vector = refl

ragged : extract_features total length (first ∷ csi (1 ∷ []) (1 ∷ 2 ∷ []) ∷ []) both ≡ none
unfolding program
ragged = refl

repeated_stat : model_validate (record both { stats = mean ∷ mean ∷ [] }) ≡ false
unfolding program
repeated_stat = refl

first-Uniform : Uniform 2 both (first ∷ later)
first-Uniform = record {
  amplitude_wide = λ _. (refl, (refl, tt));
  phase_wide = λ _. (refl, (refl, tt));
  included = refl;
}

extract_features-length_example : Extracted total length 2 both (first ∷ later)
extract_features-length_example =
    extract_features-length total length 2 both first later first-Uniform

extract_features-some_iff_example :
    ((v : List ℕ) × (extract_features total length (first ∷ later) both ≡ some v)) ↔ (
      (n : ℕ) × (r : CsiRow ℕ) × (rest : List (CsiRow ℕ)) × (first ∷ later ≡ r ∷ rest)
      × Uniform n both (first ∷ later))
extract_features-some_iff_example = extract_features-some_iff total length both (first ∷ later)
