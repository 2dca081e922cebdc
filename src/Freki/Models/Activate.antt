-- ===== src/Freki/Models/Activate.antt =====
-- The swap of the active model.
use mathlib.Core.Path.{ap₂}
use grimnir.Base.{
  ℕ, ◌+◌, ◌<◌, ◌≡◌, refl, ap, ◌∙◌, Bool, true, false, not, ◌&&◌, some, List, [], ◌∷◌, ◌++◌, map,
  arith, ◌==◌, select, exists, length, ok, http,
}
use grimnir.Freki.Models.Defs.{
  TrainedModel, Registry, project, active_model, index_holds, clear_others, set_active, swap,
  activate_model,
}
use grimnir.Freki.Models.Table.{IdsWithin, find, select-found, exists-found}

module _ {J : Type 0} where
  -- The row with its flag set for the model of that id only.
  abbrev pub mark : ℕ → TrainedModel J → TrainedModel J
  mark model_id r = record r { is_active = r.id == model_id }

  mark_one :
      (k : ℕ) (r : TrainedModel J) (a b : Bool)
      → r.is_active ≡ a
      → (r.id == k) ≡ b
      → set_active k (clear_others k (r ∷ [])) ≡ mark k r ∷ []
  mark_one k r true true ea eb = rw (ea, eb) (rw eb refl)
  mark_one k r true false ea eb = rw (ea, eb) (rw eb refl)
  mark_one k r false true ea eb = rw (ea, eb) refl
  mark_one k r false false ea eb = rw (ea, eb) refl

  swap-mark :
      (k : ℕ) (rows : List (TrainedModel J))
      → set_active k (clear_others k rows) ≡ map (mark k) rows
  swap-mark k [] = refl
  swap-mark k (r ∷ rows) = ap₂ (λ x xs. x ++ xs) (mark_one k r _ _ refl refl) (swap-mark k rows)

  select-active-mark :
      (k : ℕ) (rows : List (TrainedModel J))
      → select (λ r. r.is_active) (map (mark k) rows) ≡ map (mark k) (select (λ r. r.id == k) rows)
  select-active-mark k [] = refl
  select-active-mark k (r ∷ rows) = ground (arith, select-active-mark k rows)

  select-id-mark :
      (k : ℕ) (rows : List (TrainedModel J))
      → select (λ r. r.id == k) (map (mark k) rows) ≡ map (mark k) (select (λ r. r.id == k) rows)
  select-id-mark k [] = refl
  select-id-mark k (r ∷ rows) = ground (arith, select-id-mark k rows)

  -- Activating a model that exists, with the clearing done first, sets the flag of that row and
  -- clears all others, answers with that row, and makes it what GET /active returns.
  pub activate_model-swaps :
      (k : ℕ) (t : Registry J) (r : TrainedModel J)
      → IdsWithin 0 t.next_id t.rows
      → find k t.rows ≡ some r
      → ((activate_model true k t).0.rows ≡ map (mark k) t.rows)
        × ((activate_model true k t).1 ≡ ok (project (mark k r)))
        × (active_model (activate_model true k t).0 ≡ ok (project (mark k r)))
  unfolding activate_model swap active_model
  activate_model-swaps k t r ids e =
      let one = select-found k 0 t.next_id t.rows r ids e in
      let active : select (λ r. r.is_active) (map (mark k) t.rows) ≡ mark k r ∷ [] =
        select-active-mark k t.rows ∙ ap (map (mark k)) one in
      let chosen : select (λ r. r.id == k) (map (mark k) t.rows) ≡ mark k r ∷ [] =
        select-id-mark k t.rows ∙ ap (map (mark k)) one in
      rw (exists-found k t.rows r e)
        (rw (swap-mark k t.rows) (rw active (refl, rw chosen refl, rw active refl)))

  length-active-set :
      (k : ℕ) (rows : List (TrainedModel J))
      → length (select (λ r. r.is_active) (set_active k rows))
        ≡ length (select (λ r. r.is_active && not (r.id == k)) rows)
          + length (select (λ r. r.id == k) rows)
  length-active-set k [] = refl
  length-active-set k (r ∷ rows) = ground (arith, length-active-set k rows)

  exists-length :
      (p : TrainedModel J → Bool) (rows : List (TrainedModel J))
      → exists p rows ≡ true
      → 0 < length (select p rows)
  exists-length p [] e = cc
  exists-length p (r ∷ rows) e = ground (arith, exists-length p rows)

  -- With the outer update first, activating a model while another one is active violates the partial
  -- unique index: the answer is 500 and the table stays as it is.
  pub activate_model-blocked :
      (k : ℕ) (t : Registry J)
      → exists (λ r. r.id == k) t.rows ≡ true
      → exists (λ r. r.is_active && not (r.id == k)) t.rows ≡ true
      → activate_model false k t ≡ (t, http 500)
  unfolding activate_model swap
  activate_model-blocked k t here other =
      let broken : index_holds (set_active k t.rows) ≡ false = ground (
        arith,
        length-active-set k t.rows,
        exists-length _ t.rows here,
        exists-length _ t.rows other,
      ) in
      rw here (rw broken refl)
