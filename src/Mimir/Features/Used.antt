-- ===== src/Mimir/Features/Used.antt =====
-- The windows from which features were extracted.
use grimnir.Base.{
  ℕ, ◌≡◌, refl, ap, subst, ◌∙◌, ◌↔◌, inl, inr, true, false, ◌||◌, Option, none, some, List, [], ◌∷◌,
  map, ◌==◌, ==_iff, Bool-cases, if◌then◌else◌, length, >>=-some,
}
use grimnir.Mimir.Features.Defs.{
  FeatureConfig, CsiRow, width, stack, widths_agree, amplitude_part, phase_part, extract_features,
}
use grimnir.Mimir.Features.Shape.{Wide, Uniform, stack-Wide, extract_features-length}

module _ {V : Type 0} (mean_of var_of : List V → V) where
  amplitude_part-Wide :
      (config : FeatureConfig) (r : CsiRow V) (rows : List (CsiRow V)) (x : List V × Option ℕ)
      → amplitude_part mean_of var_of (r ∷ rows) config ≡ some x
      → (config.include_amplitude ≡ true
          → Wide (length r.amplitude) (λ y. y.amplitude) (r ∷ rows)
            × (x.1 ≡ some (length r.amplitude)))
        × (config.include_amplitude ≡ false → x.1 ≡ none)
  amplitude_part-Wide config r rows x e = (
    λ a.
        let (xs, ex, e') =
          >>=-some (stack (map (λ (y : CsiRow V). y.amplitude) (r ∷ rows))) _ (rw a at e) in
        let (wide, same) = stack-Wide (λ y. y.amplitude) r rows xs ex in
        let whole : x.1 ≡ some (width xs) = cc e' in (wide, whole ∙ ap (λ l. some (width l)) same),
    λ a. cc (rw a at e),
  )

  phase_part-Wide :
      (config : FeatureConfig) (r : CsiRow V) (rows : List (CsiRow V)) (w : Option ℕ) (y : List V)
      → phase_part mean_of var_of (r ∷ rows) config w ≡ some y
      → config.include_phase ≡ true
      → Wide (length r.phase) (λ y. y.phase) (r ∷ rows) × (widths_agree w (length r.phase) ≡ true)
  phase_part-Wide config r rows w y e p =
      let (ys, ey, e') =
        >>=-some (stack (map (λ (y : CsiRow V). y.phase) (r ∷ rows))) _ (rw p at e) in
      let (wide, same) = stack-Wide (λ y. y.phase) r rows ys ey in
      elim (Bool-cases (widths_agree w (width ys))) [
        | inl t ↦ (wide, subst (λ l. widths_agree w (width l) ≡ true) same t)
        | inr f ↦ absurd (cc (rw f at e'))
      ]

  -- The common width of a window that was used.
  abbrev used_width : FeatureConfig → CsiRow V → ℕ
  used_width config r = if config.include_amplitude then length r.amplitude else length r.phase

  used-Uniform :
      (config : FeatureConfig) (r : CsiRow V) (rows : List (CsiRow V)) (x : List V × Option ℕ)
      (y : List V)
      → amplitude_part mean_of var_of (r ∷ rows) config ≡ some x
      → phase_part mean_of var_of (r ∷ rows) config x.1 ≡ some y
      → (config.include_amplitude || config.include_phase) ≡ true
      → Uniform (used_width config r) config (r ∷ rows)
  used-Uniform config r rows x y ex ey some_channel =
      let (with_amp, no_amp) = amplitude_part-Wide config r rows x ex in
      record {
        amplitude_wide = λ a.
            let used : length r.amplitude ≡ used_width config r = rw a refl in
            subst (λ k. Wide k (λ z. z.amplitude) (r ∷ rows)) used ((with_amp a).0);
        phase_wide = λ p.
            let (wide, agree) = phase_part-Wide config r rows x.1 y ey p in
            elim (Bool-cases config.include_amplitude) [
              | inl a ↦
                  let same : (length r.phase == length r.amplitude) ≡ true =
                    rw ((with_amp a).1) at agree in
                  let e : length r.phase ≡ length r.amplitude = (==_iff _ _).0 same in
                  let used : length r.amplitude ≡ used_width config r = rw a refl in
                  subst (λ k. Wide k (λ z. z.phase) (r ∷ rows)) (e ∙ used) wide
              | inr a ↦
                  let used : length r.phase ≡ used_width config r = rw a refl in
                  subst (λ k. Wide k (λ z. z.phase) (r ∷ rows)) used wide
            ];
        included = some_channel;
      }

  -- Extraction succeeds exactly on the windows that are not empty and whose rows agree in width on
  -- the included channels, one at least.
  pub extract_features-some_iff :
      (config : FeatureConfig) (rows : List (CsiRow V))
      → ((v : List V) × (extract_features mean_of var_of rows config ≡ some v)) ↔ (
          (n : ℕ) × (r : CsiRow V) × (rest : List (CsiRow V)) × (rows ≡ r ∷ rest)
          × Uniform n config rows)
  unfolding extract_features
  extract_features-some_iff config [] = (λ (v, e). absurd (cc e), λ h. absurd (cc (h.3)))
  extract_features-some_iff config (r ∷ rows) = (
    λ (v, e).
        let (x, ex, e1) = >>=-some (amplitude_part mean_of var_of (r ∷ rows) config) _ e in
        let (y, ey, e2) = >>=-some (phase_part mean_of var_of (r ∷ rows) config x.1) _ e1 in
        (
          used_width config r,
          r,
          rows,
          refl,
          elim (Bool-cases (config.include_amplitude || config.include_phase)) [
            | inl t ↦ used-Uniform config r rows x y ex ey t
            | inr f ↦ absurd (cc (rw f at e2))
          ],
        ),
    λ (n, _, _, _, u).
        let (v, e, _) = extract_features-length mean_of var_of n config r rows u in (v, e),
  )
