-- ===== src/Nornir/Windows/Homogeneous.antt =====
-- What a window yielded by `_windows` (nornir/src/nornir/train.py) consists of.
use grimnir.Base.{
  ℕ, ◌≤◌, ◌<◌, ◌≡◌, ◌≢◌, refl, ap, sym, subst, ◌∙◌, inl, inr, Option, none, some, List, [], ◌∷◌,
  ◌++◌, ltb, ◌==◌, ==_iff, ltb→lt, not_ltb, Str, str_eq, str_eq_iff, arith, length, length-append,
  Dict, All, All-append, All-imp, dict_get, dict_set, dict_get-dict_set_self, dict_get-dict_set_ne,
  Bool-cases,
}
use grimnir.Nornir.Windows.Defs.{
  TrainingRow, WindowState, no_windows, list_or_empty, kept, cut, window_step, with_window,
  raw_windows,
}

module _ {S : Type 0} (w : ℕ) where
  -- A backlog is shorter than a window, and its rows have its receiver and the last label seen.
  pub record Backlog (k : ℕ) (old : Option Str) (buf : List (TrainingRow S)) : Type 0 where
    pub few : length buf < w
    pub own : All (λ (r : TrainingRow S). (r.receiver_id ≡ k) × (old ≡ some r.label)) buf

  -- A full window of the receiver, all of its rows with the window's label.
  pub record FromOne (receiver : ℕ) (e : List (TrainingRow S) × Str) : Type 0 where
    pub full : length e.0 ≡ w
    pub own : All (λ (r : TrainingRow S). (r.receiver_id ≡ receiver) × (e.1 ≡ r.label)) e.0

  abbrev pub Homogeneous : List (TrainingRow S) × Str → Type 0
  Homogeneous e = (receiver : ℕ) × FromOne receiver e

  kept-Backlog :
      (r : TrainingRow S) (old : Option Str) (buf : List (TrainingRow S))
      → 0 < w
      → Backlog r.receiver_id old buf
      → Backlog r.receiver_id (some r.label) (kept r old buf)
  kept-Backlog r none buf pos h = record {
    few = h.few;
    own = All-imp _ buf (λ x p. (p.0, absurd (cc p.1))) h.own;
  }
  kept-Backlog r (some o) buf pos h = elim (Bool-cases (str_eq o r.label)) [
    | inl t ↦
        let same : o ≡ r.label = (str_eq_iff o r.label).0 t in
        rw t (record {
          few = h.few;
          own = All-imp _ buf (λ x p. (p.0, sym (ap some same) ∙ p.1)) h.own;
        })
    | inr f ↦ rw f (record { few = pos; own = tt })
  ]

  Grown : TrainingRow S → List (TrainingRow S) → Type 0
  Grown r grown =
      (length grown ≤ w)
      × All (λ (x : TrainingRow S). (x.receiver_id ≡ r.receiver_id) × (r.label ≡ x.label)) grown

  kept-Grown :
      (r : TrainingRow S) (old : Option Str) (buf : List (TrainingRow S))
      → 0 < w
      → Backlog r.receiver_id old buf
      → Grown r (kept r old buf ++ (r ∷ []))
  kept-Grown r old buf pos h =
      let b = kept-Backlog r old buf pos h in
      unfold Grown in
      (
        omega (arith, b.few, length-append (kept r old buf) (r ∷ [])),
        All-append _ (kept r old buf) (r ∷ [])
            (All-imp _ (kept r old buf) (λ x p. (p.0, cc p.1)) b.own) ((refl, refl), tt),
      )

  abbrev pub Whole : ℕ → Option (List (TrainingRow S) × Str) → Type 0
  Whole j none = Unit
  Whole j (some e) = FromOne j e

  cut-Backlog :
      (r : TrainingRow S) (grown : List (TrainingRow S))
      → 0 < w
      → Grown r grown
      → Backlog r.receiver_id (some r.label) (cut w grown r.label).0
        × Whole r.receiver_id (cut w grown r.label).1
  unfolding Grown
  cut-Backlog r grown pos g = elim (Bool-cases (ltb (length grown) w)) [
    | inl t ↦
        rw t
          (record { few = ltb→lt _ _ t; own = All-imp _ grown (λ x p. (p.0, ap some p.1)) g.1 }, tt)
    | inr f ↦ rw f (
      record { few = pos; own = tt },
      record { full = omega (arith, g.0, not_ltb _ _ f); own = g.1 },
    )
  ]

  -- Every receiver's backlog is good.
  abbrev pub Tidy : WindowState S → Type 0
  Tidy s = (k : ℕ) → Backlog k (dict_get k s.labels) (list_or_empty (dict_get k s.buffers))

  Backlog-dict_set :
      (j k : ℕ) (label : Str) (left : List (TrainingRow S)) (labels : Dict Str)
      (buffers : Dict (List (TrainingRow S)))
      → Backlog j (some label) left
      → Backlog k (dict_get k labels) (list_or_empty (dict_get k buffers))
      → Backlog k
          (dict_get k (dict_set j label labels))
          (list_or_empty (dict_get k (dict_set j left buffers)))
  Backlog-dict_set j k label left labels buffers here there = elim (Bool-cases (j == k)) [
    | inl t ↦
        subst
          (λ i.
            Backlog i (dict_get i (dict_set j label labels))
              (list_or_empty (dict_get i (dict_set j left buffers))))
          ((==_iff j k).0 t)
          (rw (dict_get-dict_set_self j label labels, dict_get-dict_set_self j left buffers) here)
    | inr f ↦
        let apart : k ≢ j = λ e. ground arith in
        rw
          (dict_get-dict_set_ne k j label labels apart, dict_get-dict_set_ne k j left buffers apart)
          there
  ]

  pub window_step-Tidy :
      (r : TrainingRow S) (s : WindowState S)
      → 0 < w
      → Tidy s
      → Tidy (window_step w r s).0 × Whole r.receiver_id (window_step w r s).1
  unfolding window_step
  window_step-Tidy r s pos h =
      let good =
        cut-Backlog r _ pos
          (kept-Grown r (dict_get r.receiver_id s.labels) _ pos (h r.receiver_id)) in
      (λ k. Backlog-dict_set r.receiver_id k r.label _ s.labels s.buffers good.0 (h k), good.1)

  raw_windows-All :
      (rows : List (TrainingRow S)) (s : WindowState S)
      → 0 < w
      → Tidy s
      → All Homogeneous (raw_windows w rows s)
  unfolding raw_windows
  raw_windows-All [] s pos h = tt
  raw_windows-All (r ∷ rows) s pos h =
      let (h', good) = window_step-Tidy r s pos h in
      add (window_step w r s).1 _ good (raw_windows-All rows _ pos h')
    where
      add :
          (o : Option (List (TrainingRow S) × Str)) (ws : List (List (TrainingRow S) × Str))
          → Whole r.receiver_id o
          → All Homogeneous ws
          → All Homogeneous (with_window o ws)
      add none ws g hs = hs
      add (some e) ws g hs = ((r.receiver_id, g), hs)

  pub no_windows-Tidy : 0 < w → Tidy no_windows
  no_windows-Tidy pos k = record { few = pos; own = tt }

  -- With a positive window size, every window that is yielded has exactly that many rows, and they
  -- all have one receiver and the label that the window is yielded with.
  pub raw_windows-Homogeneous :
      (rows : List (TrainingRow S)) → 0 < w → All Homogeneous (raw_windows w rows no_windows)
  raw_windows-Homogeneous rows pos = raw_windows-All rows no_windows pos (no_windows-Tidy pos)
