-- ===== src/Nornir/Windows/Collect.antt =====
-- What `_collect_windows` returns when it returns.
use grimnir.Base.{
  ℕ, ◌<◌, ◌≡◌, refl, ap, sym, ◌∙◌, inl, inr, false, not, Option, none, some, List, [], ◌∷◌, map,
  ◌==◌, Str, arith, length, exists, All, Bool-cases,
}
use grimnir.Nornir.Windows.Defs.{
  TrainingRow, no_windows, raw_windows, extracted, windows, training_set, several, checked,
  collect_windows,
}

uniform_from :
    {F : Type 0} (width : F → ℕ) (n : ℕ) (fs : List F)
    → exists (λ g. not (width g == n)) fs ≡ false
    → All (λ f. width f ≡ n) fs
uniform_from width n [] e = tt
uniform_from width n (f ∷ fs) e = ground (arith, uniform_from width n fs)

-- All features have the width of the first.
abbrev pub Uniform : {F : Type 0} → (F → ℕ) → List F → Type 0
Uniform width [] = Unit
Uniform width (f ∷ fs) = All (λ g. width g ≡ width f) fs

module _ {S F : Type 0} (extract : List (TrainingRow S) → Option F) where
  abbrev Extracted : List (List (TrainingRow S) × Str) → List (F × Str) → Type 0
  Extracted ws out =
      (map (λ f. let o : Option F = some f in o) (map (λ (e : F × Str). e.0) out)
        ≡ map (λ (e : List (TrainingRow S) × Str). extract e.0) ws)
      × (map (λ (e : F × Str). e.1) out ≡ map (λ (e : List (TrainingRow S) × Str). e.1) ws)

  extracted-map :
      (ws : List (List (TrainingRow S) × Str)) (out : List (F × Str))
      → extracted extract ws ≡ some out
      → Extracted ws out
  unfolding extracted
  extracted-map [] out e = let h : [] ≡ out = cc e in rw (sym h) (refl, refl)
  extracted-map ((buf, label) ∷ ws) out e =
      grow (extracted-map ws) (extract buf) refl (extracted extract ws) refl
    where
      grow :
          ((more : List (F × Str)) → extracted extract ws ≡ some more → Extracted ws more)
          → (o : Option F) → extract buf ≡ o
          → (rest : Option (List (F × Str))) → extracted extract ws ≡ rest
          → Extracted ((buf, label) ∷ ws) out
      grow rec none a rest b = absurd (cc (rw a at e))
      grow rec (some f) a none b = absurd (cc (rw (a, b) at e))
      grow rec (some f) a (some more) b =
          let h : (f, label) ∷ more ≡ out = cc (rw (a, b) at e) in
          let (fs, ts) = rec more b in rw (sym h) (rw (a, fs) refl, rw ts refl)

  checked-training_set :
      (width : F → ℕ) (o : Option (List (F × Str))) (row_count : ℕ) (fs : List F) (ts : List Str)
      (n : ℕ)
      → checked extract width o row_count ≡ training_set fs ts n
      → (out : List (F × Str)) × (o ≡ some out)
        × (map (λ (e : F × Str). e.0) out ≡ fs)
        × (map (λ (e : F × Str). e.1) out ≡ ts)
        × (n ≡ row_count)
        × (0 < length fs)
        × Uniform width fs
  checked-training_set width none row_count fs ts n e = absurd (cc e)
  checked-training_set width (some []) row_count fs ts n e = absurd (cc e)
  checked-training_set width (some ((f, t) ∷ ws)) row_count fs ts n e =
      elim (Bool-cases (several width (f ∷ map (λ (e : F × Str). e.0) ws))) [
        | inl t ↦ absurd (cc (rw t at e))
        | inr single ↦
            let h : training_set (f ∷ map (λ (e : F × Str). e.0) ws)
                  (t ∷ map (λ (e : F × Str). e.1) ws) row_count
                ≡ training_set fs ts n =
              rw single at e in
            let a : f ∷ map (λ (e : F × Str). e.0) ws ≡ fs = cc h in
            (
              (f, t) ∷ ws,
              refl,
              a,
              cc h,
              cc h,
              rw (sym a) (omega arith),
              rw (sym a) (uniform_from width (width f) _ single),
            )
      ]

  module _ (width : F → ℕ) where
    -- A returned training set has one feature vector for each window, its targets are the labels of
    -- the windows in the same order, it counts all the rows of the stream, is not empty, and its
    -- vectors have one width.
    pub collect_windows-training_set :
        (window_size : ℕ) (rows : List (TrainingRow S)) (fs : List F) (ts : List Str) (n : ℕ)
        → collect_windows extract width window_size rows ≡ training_set fs ts n
        → (map (λ f. let o : Option F = some f in o) fs
            ≡ map
                (λ (e : List (TrainingRow S) × Str). extract e.0)
                (raw_windows window_size rows no_windows))
          × (ts
              ≡ map
                  (λ (e : List (TrainingRow S) × Str). e.1)
                  (raw_windows window_size rows no_windows))
          × (n ≡ length rows)
          × (0 < length fs)
          × Uniform width fs
    unfolding collect_windows
    collect_windows-training_set window_size rows fs ts n e =
        let (out, done, a, b, counted, some_window, uniform) =
          checked-training_set width (windows extract window_size rows) (length rows) fs ts n e in
        let (features, targets) =
          extracted-map (raw_windows window_size rows no_windows) out done in
        (ap (map _) (sym a) ∙ features, sym b ∙ targets, counted, some_window, uniform)
