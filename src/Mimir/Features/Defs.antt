-- ===== src/Mimir/Features/Defs.antt =====
-- class FeatureConfig and `extract_features`. `V` stands for float32; the mean and the variance of a
-- column are arguments, and `none` is a ValueError.
use grimnir.Base.{
  ℕ, zero, suc, Bool, true, false, not, ◌&&◌, ◌||◌, Option, none, some, List, [], ◌∷◌, ◌++◌, map,
  leb, ◌==◌, if◌then◌else◌, length, exists, drop, ◌>>=◌,
}

pub data Stat : Type 0 where
  mean var : Stat

abbrev pub same_stat : Stat → Stat → Bool
same_stat mean mean = true
same_stat var var = true
same_stat _ _ = false

pub record FeatureConfig : Type 0 where
  pub version : ℕ
  pub stats : List Stat
  pub include_amplitude : Bool
  pub include_phase : Bool

-- `len(set(v)) == len(v)`
abbrev pub stats_unique : List Stat → Bool
stats_unique [] = true
stats_unique (s ∷ ss) = not (exists (same_stat s) ss) && stats_unique ss

-- The constraints on the fields, and the two validators.
unfoldable pub model_validate : FeatureConfig → Bool
model_validate config =
    leb 1 config.version
    && (leb 1 (length config.stats)
        && (stats_unique config.stats && (config.include_amplitude || config.include_phase)))

-- The columns of a row of CSI data that are read.
pub record CsiRow (V : Type 0) : Type 0 where
  pub amplitude : List V
  pub phase : List V

-- `width is not None and phase.shape[1] != width`
abbrev pub widths_agree : Option ℕ → ℕ → Bool
widths_agree none n = true
widths_agree (some w) n = n == w

module _ {V : Type 0} where
  -- All rows have the width of the first.
  abbrev pub rectangular : ℕ → List (List V) → Bool
  rectangular n rows = not (exists (λ (r : List V). not (length r == n)) rows)

  abbrev pub width : List (List V) → ℕ
  width [] = 0
  width (r ∷ _) = length r

  -- `np.asarray(..., dtype=np.float32)`, which refuses rows of different lengths.
  abbrev pub stack : List (List V) → Option (List (List V))
  stack rows = if rectangular (width rows) rows then some rows else none

  abbrev pub heads : List (List V) → List V
  heads [] = []
  heads ([] ∷ rows) = heads rows
  heads ((x ∷ _) ∷ rows) = x ∷ heads rows

  -- The first `n` columns.
  abbrev pub columns : ℕ → List (List V) → List (List V)
  columns zero rows = []
  columns (suc n) rows = heads rows ∷ columns n (map (drop 1) rows)

  module _ (mean_of var_of : List V → V) where
    -- `stack.mean(axis=0)` and `stack.var(axis=0)`
    abbrev pub stat_of : Stat → List V → V
    stat_of mean = mean_of
    stat_of var = var_of

    -- `np.concatenate` raises on no parts, which a validated configuration, with its statistics, excludes.
    unfoldable pub apply_stats : List (List V) → List Stat → List V
    apply_stats rows [] = []
    apply_stats rows (s ∷ ss) = map (stat_of s) (columns (width rows) rows) ++ apply_stats rows ss

    -- The amplitude's part with its width.
    abbrev pub amplitude_part : List (CsiRow V) → FeatureConfig → Option (List V × Option ℕ)
    amplitude_part rows config =
        if config.include_amplitude
        then (do
          amp ← stack (map (λ (r : CsiRow V). r.amplitude) rows)
          some (apply_stats amp config.stats, some (width amp)))
        else some ([], none)

    abbrev pub phase_part : List (CsiRow V) → FeatureConfig → Option ℕ → Option (List V)
    phase_part rows config w =
        if config.include_phase
        then (do
          phase ← stack (map (λ (r : CsiRow V). r.phase) rows)
          if widths_agree w (width phase) then some (apply_stats phase config.stats) else none)
        else some []

    -- The parts concatenated; with no part `np.concatenate` raises.
    unfoldable pub extract_features : List (CsiRow V) → FeatureConfig → Option (List V)
    unfolding apply_stats
    extract_features [] config = none
    extract_features (r ∷ rows) config = do
      (amp, w) ← amplitude_part (r ∷ rows) config
      phase ← phase_part (r ∷ rows) config w
      if config.include_amplitude || config.include_phase then some (amp ++ phase) else none
