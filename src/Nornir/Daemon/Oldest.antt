-- ===== src/Nornir/Daemon/Oldest.antt =====
-- The order in which the daemon tries the queued jobs: Freki lists the newest first, and
-- `_claim_and_run` reverses the list.
use mathlib.Core.List.{reverse, reverse-append}
use grimnir.Base.{
  ℕ, zero, suc, ◌≤◌, ◌<◌, ◌≡◌, refl, ap, sym, subst, ◌∙◌, true, Bool, some, List, [], ◌∷◌, ◌++◌,
  arith, inl, inr, Bool-cases, ltb, ltb→lt, not_ltb, All, select, length, take, All-imp,
}
use grimnir.Freki.Jobs.{TrainingJob}
use grimnir.Freki.Jobs.Table.{find, IdsWithin}
use grimnir.Nornir.Client.{insert_newest, newest_first}

module _ {S : Type 0} where
  -- No job is older than a later one.
  abbrev Newest : List (TrainingJob S) → Type 0
  Newest [] = Unit
  Newest (j ∷ js) = All (λ x. x.created_at ≤ j.created_at) js × Newest js

  pub insert_newest-All :
      (P : TrainingJob S → Type 0) (j : TrainingJob S) (js : List (TrainingJob S))
      → P j
      → All P js
      → All P (insert_newest j js)
  insert_newest-All P j [] h hs = (h, tt)
  insert_newest-All P j (x ∷ js) h hs = elim (Bool-cases (ltb j.created_at x.created_at)) [
    | inl t ↦ rw t (hs.0, insert_newest-All P j js h hs.1)
    | inr f ↦ rw f (h, hs)
  ]

  insert_newest-Newest :
      (j : TrainingJob S) (js : List (TrainingJob S)) → Newest js → Newest (insert_newest j js)
  insert_newest-Newest j [] h = (tt, tt)
  insert_newest-Newest j (x ∷ js) h = elim (Bool-cases (ltb j.created_at x.created_at)) [
    | inl t ↦
        let lt = ltb→lt _ _ t in
        let older : All (λ y. y.created_at ≤ x.created_at) (insert_newest j js) =
          insert_newest-All (λ y. y.created_at ≤ x.created_at) j js (omega (arith, lt)) h.0 in
        rw t (older, insert_newest-Newest j js h.1)
    | inr f ↦
        let le = not_ltb _ _ f in
        let older : All (λ y. y.created_at ≤ j.created_at) js =
          All-imp (λ y. y.created_at ≤ j.created_at) js (λ y l. omega (arith, l, le)) h.0 in
        rw f ((le, older), h)
  ]

  newest_first-Newest : (js : List (TrainingJob S)) → Newest (newest_first js)
  newest_first-Newest [] = tt
  newest_first-Newest (j ∷ js) = insert_newest-Newest j (newest_first js) (newest_first-Newest js)

  pub newest_first-All :
      (P : TrainingJob S → Type 0) (js : List (TrainingJob S)) → All P js → All P (newest_first js)
  newest_first-All P [] h = tt
  newest_first-All P (j ∷ js) h =
      insert_newest-All P j (newest_first js) h.0 (newest_first-All P js h.1)

  -- Back from the sorted list to the list itself.
  insert_newest-All_of :
      (P : TrainingJob S → Type 0) (j : TrainingJob S) (js : List (TrainingJob S))
      → All P (insert_newest j js)
      → P j × All P js
  insert_newest-All_of P j [] h = h
  insert_newest-All_of P j (x ∷ js) h = elim (Bool-cases (ltb j.created_at x.created_at)) [
    | inl t ↦ let (a, b) = insert_newest-All_of P j js ((rw t at h).1) in (a, ((rw t at h).0, b))
    | inr f ↦ rw f at h
  ]

  newest_first-All_of :
      (P : TrainingJob S → Type 0) (js : List (TrainingJob S)) → All P (newest_first js) → All P js
  newest_first-All_of P [] h = tt
  newest_first-All_of P (j ∷ js) h =
      let (a, b) = insert_newest-All_of P j (newest_first js) h in (a, newest_first-All_of P js b)

  pub newest_first-length : (js : List (TrainingJob S)) → length (newest_first js) ≡ length js
  newest_first-length [] = refl
  newest_first-length (j ∷ js) = added j (newest_first js) ∙ ap suc (newest_first-length js)
    where
      added :
          (j : TrainingJob S) (js : List (TrainingJob S))
          → length (insert_newest j js) ≡ suc (length js)
      added j [] = refl
      added j (x ∷ js) = ground (arith, added j js)

  pub take_whole : (n : ℕ) (xs : List (TrainingJob S)) → length xs ≤ n → take n xs ≡ xs
  take_whole zero [] h = refl
  take_whole zero (x ∷ xs) h = absurd (omega (arith, h))
  take_whole (suc n) [] h = refl
  take_whole (suc n) (x ∷ xs) h = ap (λ r. x ∷ r) (take_whole n xs (omega (arith, h)))

  split_last :
      (x : TrainingJob S) (xs : List (TrainingJob S))
      → (init : List (TrainingJob S)) × (j : TrainingJob S) × (x ∷ xs ≡ init ++ (j ∷ []))
  split_last x [] = ([], x, refl)
  split_last x (y ∷ xs) = let (init, j, e) = split_last y xs in (x ∷ init, j, ap (λ r. x ∷ r) e)

  last-All :
      (P : TrainingJob S → Type 0) (init : List (TrainingJob S)) (j : TrainingJob S)
      → All P (init ++ (j ∷ []))
      → P j
  last-All P [] j h = h.0
  last-All P (x ∷ init) j h = last-All P init j h.1

  last-oldest :
      (init : List (TrainingJob S)) (j : TrainingJob S)
      → Newest (init ++ (j ∷ []))
      → All (λ x. j.created_at ≤ x.created_at) (init ++ (j ∷ []))
  last-oldest [] j h = (omega arith, tt)
  last-oldest (x ∷ init) j h =
      (last-All (λ y. y.created_at ≤ x.created_at) init j h.0, last-oldest init j h.1)

  -- The head of the reversed list is an oldest job.
  pub oldest :
      (P : TrainingJob S → Type 0) (js : List (TrainingJob S))
      → 0 < length js
      → All P js
      → (j : TrainingJob S) × (rest : List (TrainingJob S)) × (reverse (newest_first js) ≡ j ∷ rest)
        × P j
        × All (λ x. j.created_at ≤ x.created_at) js
  oldest P js pos h =
      found (newest_first js) refl (subst (λ n. 0 < n) (sym (newest_first-length js)) pos)
    where
      found :
          (l : List (TrainingJob S))
          → newest_first js ≡ l
          → 0 < length l
          → (j : TrainingJob S) × (rest : List (TrainingJob S)) × (reverse (newest_first js)
              ≡ j ∷ rest)
            × P j
            × All (λ x. j.created_at ≤ x.created_at) js
      found [] e pos = absurd (omega (arith, pos))
      found (x ∷ xs) e pos =
          let (init, j, e') = split_last x xs in
          let shape : newest_first js ≡ init ++ (j ∷ []) = e ∙ e' in
          (
            j,
            reverse init,
            ap reverse shape ∙ reverse-append init (j ∷ []),
            last-All P init j (subst (All P) shape (newest_first-All P js h)),
            newest_first-All_of (λ x. j.created_at ≤ x.created_at) js
                (subst (All (λ x. j.created_at ≤ x.created_at)) (sym shape)
                  (last-oldest init j (subst Newest shape (newest_first-Newest js)))),
          )

  -- The queued rows of a table are found under their ids.
  above-All : (lo hi : ℕ) (js : List (TrainingJob S)) → IdsWithin lo hi js → All (λ x. lo ≤ x.id) js
  above-All lo hi [] h = tt
  above-All lo hi (j ∷ js) h = (
    h.0,
    All-imp (λ x. lo ≤ x.id) js (λ x l. omega (arith, l, h.0)) (above-All (suc j.id) hi js h.1),
  )

  pub find-All :
      (lo hi : ℕ) (js : List (TrainingJob S))
      → IdsWithin lo hi js
      → All (λ x. find x.id js ≡ some x) js
  find-All lo hi [] h = tt
  find-All lo hi (j ∷ js) h =
      (ground arith, later js (above-All (suc j.id) hi js h.1) (find-All (suc j.id) hi js h.1))
    where
      later :
          (xs : List (TrainingJob S))
          → All (λ x. suc j.id ≤ x.id) xs
          → All (λ x. find x.id js ≡ some x) xs
          → All (λ x. find x.id (j ∷ js) ≡ some x) xs
      later [] a b = tt
      later (x ∷ xs) a b = (ground (arith, a.0, b.0), later xs a.1 b.1)

  pub select-All :
      (P : TrainingJob S → Type 0) (p : TrainingJob S → Bool) (js : List (TrainingJob S))
      → All P js
      → All (λ x. P x × (p x ≡ true)) (select p js)
  select-All P p [] h = tt
  select-All P p (j ∷ js) h = elim (Bool-cases (p j)) [
    | inl t ↦ rw t ((h.0, t), select-All P p js h.1)
    | inr f ↦ rw f (select-All P p js h.1)
  ]
