-- ===== src/Nornir/Windows/Stream.antt =====
-- `_windows` (nornir/src/nornir/train.py) against the cutting of one receiver's rows.
use grimnir.Base.{
  ℕ, ◌<◌, ◌≡◌, ◌≢◌, refl, ap, subst, inl, inr, Bool, false, Option, none, some, List, [], ◌∷◌, ◌++◌,
  ◌==◌, ==_iff, if◌then◌else◌, Str, arith, length, select, All, dict_get, dict_get-dict_set_self,
  dict_get-dict_set_ne, Bool-cases,
}
use grimnir.Nornir.Windows.Defs.{
  TrainingRow, WindowState, no_windows, list_or_empty, kept, cut, window_step, with_window,
  raw_windows,
}
use grimnir.Nornir.Windows.Homogeneous.{Tidy, Whole, window_step-Tidy, no_windows-Tidy}

module _ {S : Type 0} where
  -- Cutting the rows of a single receiver: one backlog and the label of the last row.
  abbrev pub single :
      ℕ
      → List (TrainingRow S)
      → List (TrainingRow S)
      → Option Str
      → List (List (TrainingRow S) × Str)
  single w [] buf old = []
  single w (r ∷ rows) buf old =
      let (left, window) = cut w (kept r old buf ++ (r ∷ [])) r.label in
      with_window window (single w rows left (some r.label))

  abbrev pub from_receiver : ℕ → TrainingRow S → Bool
  from_receiver k r = r.receiver_id == k

  -- A window's receiver is that of its rows.
  abbrev pub of_receiver : ℕ → List (TrainingRow S) × Str → Bool
  of_receiver k ([], label) = false
  of_receiver k (r ∷ rows, label) = r.receiver_id == k

  -- Which receiver a full window is of.
  of_receiver-own :
      (j k : ℕ) (e : List (TrainingRow S) × Str)
      → 0 < length e.0
      → All (λ (r : TrainingRow S). (r.receiver_id ≡ j) × (e.1 ≡ r.label)) e.0
      → of_receiver k e ≡ (j == k)
  of_receiver-own j k ([], label) pos own = ground arith
  of_receiver-own j k (r ∷ rows, label) pos own = ap (λ i. i == k) own.0.0

  select-with_window :
      (w j k : ℕ) (o : Option (List (TrainingRow S) × Str))
      (rest : List (List (TrainingRow S) × Str))
      → 0 < w
      → Whole w j o
      → select (of_receiver k) (with_window o rest) ≡ (
          if j == k
          then with_window o (select (of_receiver k) rest)
          else select (of_receiver k) rest)
  select-with_window w j k none rest pos h = ground arith
  select-with_window w j k (some e) rest pos h =
      rw (of_receiver-own j k e (omega (arith, h.full, pos)) h.own) refl

  step_same :
      (w : ℕ) (r : TrainingRow S) (rows : List (TrainingRow S)) (s : WindowState S)
      → with_window (window_step w r s).1 (
          single w rows
            (list_or_empty (dict_get r.receiver_id (window_step w r s).0.buffers))
            (dict_get r.receiver_id (window_step w r s).0.labels))
        ≡ single w
            (r ∷ rows)
            (list_or_empty (dict_get r.receiver_id s.buffers))
            (dict_get r.receiver_id s.labels)
  unfolding window_step
  step_same w r rows s =
      let left =
        (cut w
          (kept r (dict_get r.receiver_id s.labels)
              (list_or_empty (dict_get r.receiver_id s.buffers))
            ++ (r ∷ []))
          r.label).0 in
      rw
        (
          dict_get-dict_set_self r.receiver_id r.label s.labels,
          dict_get-dict_set_self r.receiver_id left s.buffers,
        )
        refl

  step_other :
      (w k : ℕ) (r : TrainingRow S) (rows : List (TrainingRow S)) (s : WindowState S)
      → (r.receiver_id == k) ≡ false
      → single w rows
          (list_or_empty (dict_get k (window_step w r s).0.buffers))
          (dict_get k (window_step w r s).0.labels)
        ≡ single w rows (list_or_empty (dict_get k s.buffers)) (dict_get k s.labels)
  unfolding window_step
  step_other w k r rows s f =
      let apart : k ≢ r.receiver_id = λ e. ground arith in
      let left =
        (cut w
          (kept r (dict_get r.receiver_id s.labels)
              (list_or_empty (dict_get r.receiver_id s.buffers))
            ++ (r ∷ []))
          r.label).0 in
      rw
        (
          dict_get-dict_set_ne k r.receiver_id r.label s.labels apart,
          dict_get-dict_set_ne k r.receiver_id left s.buffers apart,
        )
        refl

  raw_windows-from :
      (w : ℕ) (rows : List (TrainingRow S)) (s : WindowState S) (k : ℕ)
      → 0 < w
      → Tidy w s
      → select (of_receiver k) (raw_windows w rows s)
        ≡ single w
            (select (from_receiver k) rows)
            (list_or_empty (dict_get k s.buffers))
            (dict_get k s.labels)
  unfolding raw_windows
  raw_windows-from w [] s k pos h = refl
  raw_windows-from w (r ∷ rows) s k pos h = elim (Bool-cases (r.receiver_id == k)) [
    | inl t ↦
        rw
          (
            select-with_window w r.receiver_id k (window_step w r s).1
                (raw_windows w rows (window_step w r s).0) pos (window_step-Tidy w r s pos h).1,
            raw_windows-from w rows (window_step w r s).0 k pos (window_step-Tidy w r s pos h).0,
            t,
          )
          (same k ((==_iff r.receiver_id k).0 t))
    | inr f ↦
        rw
          (
            select-with_window w r.receiver_id k (window_step w r s).1
                (raw_windows w rows (window_step w r s).0) pos (window_step-Tidy w r s pos h).1,
            raw_windows-from w rows (window_step w r s).0 k pos (window_step-Tidy w r s pos h).0,
            f,
          )
          (step_other w k r (select (from_receiver k) rows) s f)
  ]
    where
      same :
          (k : ℕ)
          → r.receiver_id ≡ k
          → with_window (window_step w r s).1 (
              single w
                (select (from_receiver k) rows)
                (list_or_empty (dict_get k (window_step w r s).0.buffers))
                (dict_get k (window_step w r s).0.labels))
            ≡ single w
                (r ∷ select (from_receiver k) rows)
                (list_or_empty (dict_get k s.buffers))
                (dict_get k s.labels)
      same k e =
          subst
            (λ i.
              with_window (window_step w r s).1 (
                single w (select (from_receiver k) rows)
                  (list_or_empty (dict_get i (window_step w r s).0.buffers))
                  (dict_get i (window_step w r s).0.labels))
              ≡ single w (r ∷ select (from_receiver k) rows) (list_or_empty (dict_get i s.buffers))
                  (dict_get i s.labels))
            e (step_same w r (select (from_receiver k) rows) s)

  -- With a positive window size, the windows of a receiver are, in order, those that cutting its own
  -- rows gives: rows of other receivers in between change nothing.
  pub raw_windows-single :
      (w : ℕ) (rows : List (TrainingRow S)) (k : ℕ)
      → 0 < w
      → select (of_receiver k) (raw_windows w rows no_windows)
        ≡ single w (select (from_receiver k) rows) [] none
  raw_windows-single w rows k pos = raw_windows-from w rows no_windows k pos (no_windows-Tidy w pos)
