-- ===== src/Freki/Models/Table.antt =====
-- Rows of the model table by their id.
use grimnir.Base.{
  ℕ, suc, ◌≤◌, ◌<◌, ◌≡◌, refl, Bool, true, Option, none, some, List, [], ◌∷◌, ◌++◌, arith, ◌==◌,
  if◌then◌else◌, select, update, exists,
}
use grimnir.Freki.Models.Defs.{TrainedModel}

module _ {J : Type 0} where
  -- The ids increase from `lo` on and stay below `hi`.
  abbrev pub IdsWithin : ℕ → ℕ → List (TrainedModel J) → Type 0
  IdsWithin lo hi [] = lo ≤ hi
  IdsWithin lo hi (r ∷ rows) = (lo ≤ r.id) × IdsWithin (suc r.id) hi rows

  pub IdsWithin-append :
      (lo : ℕ) (rows : List (TrainedModel J)) (r : TrainedModel J)
      → IdsWithin lo r.id rows
      → IdsWithin lo (suc r.id) (rows ++ (r ∷ []))
  IdsWithin-append lo [] r h = (h, omega arith)
  IdsWithin-append lo (x ∷ rows) r h = (h.0, IdsWithin-append (suc x.id) rows r h.1)

  pub IdsWithin-update :
      (lo hi : ℕ) (p : TrainedModel J → Bool) (f : TrainedModel J → TrainedModel J)
      → ((r : TrainedModel J) → (f r).id ≡ r.id)
      → (rows : List (TrainedModel J)) → IdsWithin lo hi rows
      → IdsWithin lo hi (update p f rows)
  IdsWithin-update lo hi p f same [] h = h
  IdsWithin-update lo hi p f same (r ∷ rows) h =
      ground (arith, same r, IdsWithin-update (suc r.id) hi p f same rows h.1)

  pub IdsWithin-grow :
      (lo hi : ℕ) (rows : List (TrainedModel J)) → IdsWithin lo hi rows → IdsWithin lo (suc hi) rows
  IdsWithin-grow lo hi [] h = omega arith
  IdsWithin-grow lo hi (r ∷ rows) h = (h.0, IdsWithin-grow (suc r.id) hi rows h.1)

  -- The first row with the id.
  abbrev pub find : ℕ → List (TrainedModel J) → Option (TrainedModel J)
  find k [] = none
  find k (r ∷ rows) = if r.id == k then some r else find k rows

  pub select-absent :
      (k lo hi : ℕ) (rows : List (TrainedModel J))
      → IdsWithin lo hi rows
      → k < lo
      → select (λ r. r.id == k) rows ≡ []
  select-absent k lo hi [] h lt = refl
  select-absent k lo hi (r ∷ rows) h lt = ground (arith, select-absent k (suc r.id) hi rows h.1)

  pub select-above :
      (lo hi : ℕ) (rows : List (TrainedModel J))
      → IdsWithin lo hi rows
      → select (λ r. r.id == hi) rows ≡ []
  select-above lo hi [] h = refl
  select-above lo hi (r ∷ rows) h =
      ground (arith, select-above (suc r.id) hi rows h.1, below (suc r.id) rows h.1)
    where
      below : (k : ℕ) (xs : List (TrainedModel J)) → IdsWithin k hi xs → k ≤ hi
      below k [] b = b
      below k (x ∷ xs) b = omega (arith, b.0, below (suc x.id) xs b.1)

  -- An id stands in one row.
  pub select-found :
      (k lo hi : ℕ) (rows : List (TrainedModel J)) (r : TrainedModel J)
      → IdsWithin lo hi rows
      → find k rows ≡ some r
      → select (λ x. x.id == k) rows ≡ r ∷ []
  select-found k lo hi [] r h e = cc
  select-found k lo hi (x ∷ rows) r h e =
      ground
        (arith, select-found k (suc x.id) hi rows r h.1, select-absent k (suc x.id) hi rows h.1)

  pub exists-found :
      (k : ℕ) (rows : List (TrainedModel J)) (r : TrainedModel J)
      → find k rows ≡ some r
      → exists (λ x. x.id == k) rows ≡ true
  exists-found k [] r e = cc
  exists-found k (x ∷ rows) r e = ground (arith, exists-found k rows r)
