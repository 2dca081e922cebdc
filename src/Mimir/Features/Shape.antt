-- ===== src/Mimir/Features/Shape.antt =====
-- When feature extraction succeeds, and how long the vector is.
use grimnir.Base.{
  ℕ, zero, suc, ◌+◌, ◌*◌, ◌≡◌, refl, ap, sym, subst, ◌∙◌, ◌↔◌, inl, inr, Bool, true, false, ◌||◌,
  some, List, [], ◌∷◌, ◌++◌, map, arith, ◌==◌, ==_iff, Bool-cases, length, length-append, drop, All,
}
use grimnir.Mimir.Features.Defs.{
  Stat, FeatureConfig, CsiRow, rectangular, width, stack, columns, stat_of, apply_stats,
  extract_features,
}

length-map : {A B : Type 0} (f : A → B) (xs : List A) → length (map f xs) ≡ length xs
length-map f [] = refl
length-map f (x ∷ xs) = ap suc (length-map f xs)

-- How often a channel counts.
abbrev pub count : Bool → ℕ
count true = 1
count false = 0

module _ {V : Type 0} where
  length-columns : (n : ℕ) (rows : List (List V)) → length (columns n rows) ≡ n
  length-columns zero rows = refl
  length-columns (suc n) rows = ap suc (length-columns n (map (drop 1) rows))

  rectangular_iff :
      (n : ℕ) (rows : List (List V)) → (rectangular n rows ≡ true) ↔ All (λ r. length r ≡ n) rows
  rectangular_iff n [] = (λ _. tt, λ _. refl)
  rectangular_iff n (r ∷ rows) = ground (arith, rectangular_iff n rows)

  -- A column of the rows has one length, that of its first entry.
  abbrev pub Wide : ℕ → (CsiRow V → List V) → List (CsiRow V) → Type 0
  Wide n channel rows = All (λ r. length (channel r) ≡ n) rows

  map-Wide :
      (n : ℕ) (channel : CsiRow V → List V) (rows : List (CsiRow V))
      → Wide n channel rows ↔ All (λ r. length r ≡ n) (map channel rows)
  map-Wide n channel [] = (λ _. tt, λ _. tt)
  map-Wide n channel (r ∷ rows) =
      let (to, from) = map-Wide n channel rows in (λ h. (h.0, to h.1), λ h. (h.0, from h.1))

  stack-some :
      (n : ℕ) (channel : CsiRow V → List V) (r : CsiRow V) (rows : List (CsiRow V))
      → Wide n channel (r ∷ rows)
      → stack (map channel (r ∷ rows)) ≡ some (map channel (r ∷ rows))
  stack-some n channel r rows h =
      let e : length (channel r) ≡ n = h.0 in
      let all : rectangular (length (channel r)) (map channel (r ∷ rows)) ≡ true =
        subst (λ k. rectangular k (map channel (r ∷ rows)) ≡ true) (sym e)
          ((rectangular_iff n (map channel (r ∷ rows))).1 ((map-Wide n channel (r ∷ rows)).0 h)) in
      rw all refl

  pub stack-Wide :
      (channel : CsiRow V → List V) (r : CsiRow V) (rows : List (CsiRow V)) (x : List (List V))
      → stack (map channel (r ∷ rows)) ≡ some x
      → Wide (length (channel r)) channel (r ∷ rows) × (x ≡ map channel (r ∷ rows))
  stack-Wide channel r rows x e =
      elim (Bool-cases (rectangular (length (channel r)) (map channel (r ∷ rows)))) [
        | inl t ↦ (
          (map-Wide (length (channel r)) channel (r ∷ rows)).1
              ((rectangular_iff (length (channel r)) (map channel (r ∷ rows))).0 t),
          cc (rw t at e),
        )
        | inr f ↦ absurd (cc (rw f at e))
      ]

  -- The windows that can be used: rows that agree in width on the channels that are included.
  pub record Uniform (n : ℕ) (config : FeatureConfig) (rows : List (CsiRow V)) : Type 0 where
    pub amplitude_wide : config.include_amplitude ≡ true → Wide n (λ r. r.amplitude) rows
    pub phase_wide : config.include_phase ≡ true → Wide n (λ r. r.phase) rows
    pub included : (config.include_amplitude || config.include_phase) ≡ true

  module _ (mean_of var_of : List V → V) where
    length-apply_stats :
        (rows : List (List V)) (stats : List Stat)
        → length (apply_stats mean_of var_of rows stats) ≡ length stats * width rows
    unfolding apply_stats
    length-apply_stats rows [] = omega arith
    length-apply_stats rows (s ∷ ss) =
        let part = map (stat_of mean_of var_of s) (columns (width rows) rows) in
        let one : length part ≡ width rows =
          length-map (stat_of mean_of var_of s) (columns (width rows) rows)
          ∙ length-columns (width rows) rows in
        length-append part (apply_stats mean_of var_of rows ss)
        ∙ omega (arith, one, length-apply_stats rows ss)

    -- The part of one channel.
    abbrev part : (CsiRow V → List V) → CsiRow V → List (CsiRow V) → List Stat → List V
    part channel r rows stats = apply_stats mean_of var_of (map channel (r ∷ rows)) stats

    pub length-part :
        (channel : CsiRow V → List V) (n : ℕ) (r : CsiRow V) (rows : List (CsiRow V))
        (stats : List Stat)
        → length (channel r) ≡ n
        → length (part channel r rows stats) ≡ length stats * n
    length-part channel n r rows stats e =
        length-apply_stats (map channel (r ∷ rows)) stats ∙ ap (λ k. length stats * k) e

    -- The vector of a window that can be used.
    abbrev pub Extracted : ℕ → FeatureConfig → List (CsiRow V) → Type 0
    Extracted n config rows =
        (v : List V) × (extract_features mean_of var_of rows config ≡ some v)
        × (length v
            ≡ length config.stats
              * n
              * (count config.include_amplitude + count config.include_phase))

    both-Extracted :
        (n : ℕ) (config : FeatureConfig) (r : CsiRow V) (rows : List (CsiRow V))
        → Uniform n config (r ∷ rows)
        → config.include_amplitude ≡ true
        → config.include_phase ≡ true
        → Extracted n config (r ∷ rows)
    unfolding extract_features
    both-Extracted n config r rows u a p =
        let ha = u.amplitude_wide a in
        let hp = u.phase_wide p in
        let sa = stack-some n (λ x. x.amplitude) r rows ha in
        let sp = stack-some n (λ x. x.phase) r rows hp in
        let la : length r.amplitude ≡ n = ha.0 in
        let lp : length r.phase ≡ n = hp.0 in
        let agree : (length r.phase == length r.amplitude) ≡ true = (==_iff _ _).1 (lp ∙ sym la) in
        let xs = part (λ x. x.amplitude) r rows config.stats in
        let ys = part (λ x. x.phase) r rows config.stats in
        let lx : length xs ≡ length config.stats * n =
          length-part (λ x. x.amplitude) n r rows config.stats la in
        let ly : length ys ≡ length config.stats * n =
          length-part (λ x. x.phase) n r rows config.stats lp in
        (
          xs ++ ys,
          rw a (rw sa (rw p (rw sp (rw agree refl)))),
          rw (a, p) (omega (arith, length-append xs ys, lx, ly)),
        )

    amplitude-Extracted :
        (n : ℕ) (config : FeatureConfig) (r : CsiRow V) (rows : List (CsiRow V))
        → Uniform n config (r ∷ rows)
        → config.include_amplitude ≡ true
        → config.include_phase ≡ false
        → Extracted n config (r ∷ rows)
    unfolding extract_features
    amplitude-Extracted n config r rows u a p =
        let ha = u.amplitude_wide a in
        let xs = part (λ x. x.amplitude) r rows config.stats in
        let lx : length xs ≡ length config.stats * n =
          length-part (λ x. x.amplitude) n r rows config.stats ha.0 in
        (
          xs ++ [],
          rw a (rw (stack-some n (λ x. x.amplitude) r rows ha) (rw p refl)),
          rw (a, p) (omega (arith, length-append xs [], lx)),
        )

    phase-Extracted :
        (n : ℕ) (config : FeatureConfig) (r : CsiRow V) (rows : List (CsiRow V))
        → Uniform n config (r ∷ rows)
        → config.include_amplitude ≡ false
        → config.include_phase ≡ true
        → Extracted n config (r ∷ rows)
    unfolding extract_features
    phase-Extracted n config r rows u a p =
        let hp = u.phase_wide p in
        let ys = part (λ x. x.phase) r rows config.stats in
        let ly : length ys ≡ length config.stats * n =
          length-part (λ x. x.phase) n r rows config.stats hp.0 in
        (
          ys,
          rw a (rw p (rw (stack-some n (λ x. x.phase) r rows hp) refl)),
          rw (a, p) (omega (arith, ly)),
        )

    -- A window that is not empty and whose rows agree in width on the included channels gives a vector
    -- with one entry for each statistic, column and included channel.
    pub extract_features-length :
        (n : ℕ) (config : FeatureConfig) (r : CsiRow V) (rows : List (CsiRow V))
        → Uniform n config (r ∷ rows)
        → Extracted n config (r ∷ rows)
    extract_features-length n config r rows u = elim (Bool-cases config.include_amplitude) [
      | inl a ↦ elim (Bool-cases config.include_phase) [
        | inl p ↦ both-Extracted n config r rows u a p
        | inr p ↦ amplitude-Extracted n config r rows u a p
      ]
      | inr a ↦ elim (Bool-cases config.include_phase) [
        | inl p ↦ phase-Extracted n config r rows u a p
        | inr p ↦ absurd (cc (rw p at (rw a at u.included)))
      ]
    ]
