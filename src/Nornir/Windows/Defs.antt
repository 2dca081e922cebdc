-- ===== src/Nornir/Windows/Defs.antt =====
-- `_windows` and `_collect_windows` of nornir/src/nornir/train.py. The rows are those that the stream
-- delivers before it ends; `extract` stands for `extract_features`, `none` for an exception in it.
use grimnir.Base.{
  ℕ, Bool, false, not, Option, none, some, List, [], ◌∷◌, ◌++◌, map, ltb, ◌==◌, if◌then◌else◌,
  ◌>>=◌, Str, str_eq, length, exists, Dict, dict_get, dict_set,
}

-- A row of the training data; `sample` is all of it but the receiver and the label.
pub record TrainingRow (S : Type 0) : Type 0 where
  pub receiver_id : ℕ
  pub label : Str
  pub sample : S

pub record WindowState (S : Type 0) : Type 0 where
  pub buffers : Dict (List (TrainingRow S))
  pub labels : Dict Str

abbrev pub no_windows : {S : Type 0} → WindowState S
no_windows = record { buffers = []; labels = [] }

abbrev pub list_or_empty {ℓ} : {A : Type ℓ} → Option (List A) → List A
list_or_empty none = []
list_or_empty (some xs) = xs

-- `rid in labels and labels[rid] != label`
abbrev pub label_moved : Option Str → Str → Bool
label_moved none label = false
label_moved (some old) label = not (str_eq old label)

module _ {S : Type 0} where
  -- The backlog that the new row is appended to.
  abbrev pub kept : TrainingRow S → Option Str → List (TrainingRow S) → List (TrainingRow S)
  kept r old buf = if label_moved old r.label then [] else buf

  -- What is left in the buffer and, when it was full, the window that is yielded.
  abbrev pub cut :
      ℕ → List (TrainingRow S) → Str → List (TrainingRow S) × Option (List (TrainingRow S) × Str)
  cut window_size buf label =
      if ltb (length buf) window_size then (buf, none) else ([], some (buf, label))

  -- One turn of the loop of `_windows`.
  unfoldable pub window_step :
      ℕ → TrainingRow S → WindowState S → WindowState S × Option (List (TrainingRow S) × Str)
  window_step window_size r s =
      let buf = list_or_empty (dict_get r.receiver_id s.buffers) in
      let grown = kept r (dict_get r.receiver_id s.labels) buf ++ (r ∷ []) in
      let (left, window) = cut window_size grown r.label in
      (
        record {
          buffers = dict_set r.receiver_id left s.buffers;
          labels = dict_set r.receiver_id r.label s.labels;
        },
        window,
      )

  abbrev pub with_window :
      Option (List (TrainingRow S) × Str)
      → List (List (TrainingRow S) × Str)
      → List (List (TrainingRow S) × Str)
  with_window none rest = rest
  with_window (some w) rest = w ∷ rest

  -- The windows yielded, before feature extraction.
  unfoldable pub raw_windows :
      ℕ → List (TrainingRow S) → WindowState S → List (List (TrainingRow S) × Str)
  raw_windows window_size [] s = []
  raw_windows window_size (r ∷ rows) s =
      let (s', window) = window_step window_size r s in
      let rest = raw_windows window_size rows s' in with_window window rest

  module _ {F : Type 0} (extract : List (TrainingRow S) → Option F) where
    -- The generator run to its end; `none` when `extract_features` raises.
    unfoldable pub extracted : List (List (TrainingRow S) × Str) → Option (List (F × Str))
    extracted [] = some []
    extracted ((buf, label) ∷ ws) = do
      feat ← extract buf
      rest ← extracted ws
      some ((feat, label) ∷ rest)

    abbrev pub windows : ℕ → List (TrainingRow S) → Option (List (F × Str))
    windows window_size rows = extracted (raw_windows window_size rows no_windows)

-- What `_collect_windows` returns: the matrix, the targets and the row count, or an exception.
pub data Collected (F : Type 0) : Type 0 where
  training_set : List F → List Str → ℕ → Collected F
  no_training_windows : Collected F
  inconsistent_widths : Collected F
  extraction_failed : Collected F

-- `len({f.shape[0] for f in features}) > 1`
abbrev pub several : {F : Type 0} → (F → ℕ) → List F → Bool
several width [] = false
several width (f ∷ fs) = exists (λ g. not (width g == width f)) fs

module _ {S F : Type 0} (extract : List (TrainingRow S) → Option F) (width : F → ℕ) where
  abbrev pub checked : Option (List (F × Str)) → ℕ → Collected F
  checked none row_count = extraction_failed
  checked (some []) row_count = no_training_windows
  checked (some (w ∷ ws)) row_count =
      let features = map (λ (e : F × Str). e.0) (w ∷ ws) in
      if several width features
      then inconsistent_widths
      else training_set features (map (λ (e : F × Str). e.1) (w ∷ ws)) row_count

  unfoldable pub collect_windows : ℕ → List (TrainingRow S) → Collected F
  collect_windows window_size rows = checked (windows extract window_size rows) (length rows)
