-- ===== src/Freki/Jobs/Table.antt =====
-- Rows of the job table by their id: the order of the ids, and what a conditional UPDATE does to the
-- row with a given id.
use grimnir.Base.{
  ℕ, suc, ◌+◌, ◌≤◌, ◌<◌, ◌≡◌, refl, Bool, ◌&&◌, Option, none, some, List, [], ◌∷◌, ◌++◌, arith,
  ◌==◌, if◌then◌else◌, select, update, length,
}
use grimnir.Freki.Jobs.Defs.{TrainingJob}
use grimnir.Freki.Jobs.Handlers.{insert_jobs}

module _ {S : Type 0} where
  -- The first row with the id.
  abbrev pub find : ℕ → List (TrainingJob S) → Option (TrainingJob S)
  find k [] = none
  find k (j ∷ js) = if j.id == k then some j else find k js

  -- The ids increase from `lo` on and stay below `hi`.
  abbrev pub IdsWithin : ℕ → ℕ → List (TrainingJob S) → Type 0
  IdsWithin lo hi [] = lo ≤ hi
  IdsWithin lo hi (j ∷ js) = (lo ≤ j.id) × IdsWithin (suc j.id) hi js

  -- What the RETURNING clause finds in the row with the id.
  abbrev pub hit : (TrainingJob S → Bool) → Option (TrainingJob S) → List (TrainingJob S)
  hit q none = []
  hit q (some j) = if q j then j ∷ [] else []

  pub IdsWithin-weaken :
      (lo lo' hi : ℕ) (js : List (TrainingJob S))
      → lo' ≤ lo
      → IdsWithin lo hi js
      → IdsWithin lo' hi js
  IdsWithin-weaken lo lo' hi [] le h = omega arith
  IdsWithin-weaken lo lo' hi (j ∷ js) le h = (omega arith, h.1)

  pub IdsWithin-update :
      (lo hi : ℕ) (p : TrainingJob S → Bool) (f : TrainingJob S → TrainingJob S)
      → ((j : TrainingJob S) → (f j).id ≡ j.id)
      → (js : List (TrainingJob S)) → IdsWithin lo hi js
      → IdsWithin lo hi (update p f js)
  IdsWithin-update lo hi p f same [] h = h
  IdsWithin-update lo hi p f same (j ∷ js) h =
      ground (arith, same j, IdsWithin-update (suc j.id) hi p f same js h.1)

  insert_jobs-IdsWithin :
      (lo hi now : ℕ) (specs : List S)
      → lo ≤ hi
      → IdsWithin lo (hi + length specs) (insert_jobs hi now specs)
  insert_jobs-IdsWithin lo hi now [] h = omega arith
  insert_jobs-IdsWithin lo hi now (x ∷ specs) h =
      let e : hi + suc (length specs) ≡ suc hi + length specs = omega arith in
      (h, rw e (insert_jobs-IdsWithin (suc hi) (suc hi) now specs (omega arith)))

  pub IdsWithin-insert :
      (lo hi now : ℕ) (js : List (TrainingJob S)) (specs : List S)
      → IdsWithin lo hi js
      → IdsWithin lo (hi + length specs) (js ++ insert_jobs hi now specs)
  IdsWithin-insert lo hi now [] specs h = insert_jobs-IdsWithin lo hi now specs h
  IdsWithin-insert lo hi now (j ∷ js) specs h =
      (h.0, IdsWithin-insert (suc j.id) hi now js specs h.1)

  pub select-id-absent :
      (k lo hi : ℕ) (q : TrainingJob S → Bool) (js : List (TrainingJob S))
      → IdsWithin lo hi js
      → k < lo
      → select (λ j. j.id == k && q j) js ≡ []
  select-id-absent k lo hi q [] h lt = refl
  select-id-absent k lo hi q (j ∷ js) h lt =
      ground (arith, select-id-absent k (suc j.id) hi q js h.1)

  -- At most one row passes a test that asks for an id.
  pub select-id :
      (k lo hi : ℕ) (q : TrainingJob S → Bool) (js : List (TrainingJob S))
      → IdsWithin lo hi js
      → select (λ j. j.id == k && q j) js ≡ hit q (find k js)
  select-id k lo hi q [] h = refl
  select-id k lo hi q (j ∷ js) h =
      ground (arith, select-id k (suc j.id) hi q js h.1, select-id-absent k (suc j.id) hi q js h.1)

  pub find-update :
      (i : ℕ) (p : TrainingJob S → Bool) (f : TrainingJob S → TrainingJob S)
      → ((j : TrainingJob S) → (f j).id ≡ j.id)
      → (js : List (TrainingJob S)) (j : TrainingJob S) → find i js ≡ some j
      → find i (update p f js) ≡ some (if p j then f j else j)
  find-update i p f same [] j e = cc
  find-update i p f same (x ∷ js) j e = ground (arith, same x, find-update i p f same js j)

  pub find-append :
      (i : ℕ) (js ks : List (TrainingJob S)) (j : TrainingJob S)
      → find i js ≡ some j
      → find i (js ++ ks) ≡ some j
  find-append i [] ks j e = cc
  find-append i (x ∷ js) ks j e = ground (arith, find-append i js ks j)

  pub find-id :
      (i : ℕ) (js : List (TrainingJob S)) (j : TrainingJob S) → find i js ≡ some j → j.id ≡ i
  find-id i [] j e = cc
  find-id i (x ∷ js) j e = ground (arith, find-id i js j)
