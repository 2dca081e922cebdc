-- ===== src/Freki/TrainingData/Order.antt =====
-- ORDER BY time, receiver_id and the cursor's condition, as `_training_query` combines them.
use grimnir.Base.{
  ◌≡◌, refl, ap, sym, ◌∙◌, inl, inr, Bool, true, false, ◌&&◌, some, List, [], ◌∷◌, ◌++◌, arith,
  ◌==◌, if◌then◌else◌, Bool-cases, select, All, All-imp,
}
use grimnir.Freki.TrainingData.Defs.{Sample, key_lt, key_of, insert_sample, order_by, past}

module _ {B : Type 0} where
  -- `x` comes strictly before `y`.
  abbrev pub Before : Sample B → Sample B → Type 0
  Before x y = key_lt (key_of x) (key_of y) ≡ true

  abbrev pub Ascending : List (Sample B) → Type 0
  Ascending [] = Unit
  Ascending (x ∷ xs) = All (Before x) xs × Ascending xs

  -- Two rows do not share time and receiver.
  abbrev pub Apart : Sample B → Sample B → Type 0
  Apart x y = (x.time == y.time && x.receiver_id == y.receiver_id) ≡ false

  abbrev pub Distinct : List (Sample B) → Type 0
  Distinct [] = Unit
  Distinct (x ∷ xs) = All (Apart x) xs × Distinct xs

  Before-trans : (x y z : Sample B) → Before x y → Before y z → Before x z
  Before-trans x y z h k = ground arith

  Before-flip : (x y : Sample B) → Apart y x → key_lt (key_of x) (key_of y) ≡ false → Before y x
  Before-flip x y a f = ground arith

  All-member :
      (P : Sample B → Type 0) (d : List (Sample B)) (x : Sample B) (todo : List (Sample B))
      → All P (d ++ (x ∷ todo))
      → P x
  All-member P [] x todo h = h.0
  All-member P (y ∷ d) x todo h = All-member P d x todo h.1

  All-insert_sample :
      (P : Sample B → Type 0) (s : Sample B) (xs : List (Sample B))
      → P s
      → All P xs
      → All P (insert_sample s xs)
  All-insert_sample P s [] p h = (p, tt)
  All-insert_sample P s (x ∷ xs) p h = elim (Bool-cases (key_lt (key_of x) (key_of s))) [
    | inl t ↦ rw t (h.0, All-insert_sample P s xs p h.1)
    | inr f ↦ rw f (p, h)
  ]

  insert_sample-Ascending :
      (s : Sample B) (xs : List (Sample B))
      → All (Apart s) xs
      → Ascending xs
      → Ascending (insert_sample s xs)
  insert_sample-Ascending s [] a h = (tt, tt)
  insert_sample-Ascending s (x ∷ xs) a h = elim (Bool-cases (key_lt (key_of x) (key_of s))) [
    | inl t ↦ rw t (All-insert_sample (Before x) s xs t h.0, insert_sample-Ascending s xs a.1 h.1)
    | inr f ↦
        let first = Before-flip x s a.0 f in
        rw f ((first, All-imp (Before s) xs (λ y. Before-trans s x y first) h.0), h)
  ]

  All-order_by :
      (P : Sample B → Type 0) (rows : List (Sample B)) → All P rows → All P (order_by rows)
  unfolding order_by
  All-order_by P [] h = tt
  All-order_by P (s ∷ rows) h = All-insert_sample P s _ h.0 (All-order_by P rows h.1)

  pub order_by-Ascending : (rows : List (Sample B)) → Distinct rows → Ascending (order_by rows)
  unfolding order_by
  order_by-Ascending [] h = tt
  order_by-Ascending (s ∷ rows) h =
      insert_sample-Ascending s _ (All-order_by (Apart s) rows h.0) (order_by-Ascending rows h.1)

  insert_first :
      (s : Sample B) (xs : List (Sample B)) → All (Before s) xs → insert_sample s xs ≡ s ∷ xs
  insert_first s [] h = refl
  insert_first s (x ∷ xs) h =
      let later : key_lt (key_of x) (key_of s) ≡ false = later_of x (h.0) in rw later refl
    where
      later_of : (x : Sample B) → Before s x → key_lt (key_of x) (key_of s) ≡ false
      later_of x b = ground arith

  All-select :
      (P : Sample B → Type 0) (p : Sample B → Bool) (xs : List (Sample B))
      → All P xs
      → All P (select p xs)
  All-select P p [] h = tt
  All-select P p (x ∷ xs) h = elim (Bool-cases (p x)) [
    | inl t ↦ rw t (h.0, All-select P p xs h.1)
    | inr f ↦ rw f (All-select P p xs h.1)
  ]

  insert_first_if :
      (p : Sample B → Bool) (s : Sample B) (xs : List (Sample B))
      → All (Before s) xs
      → select p (s ∷ xs) ≡ (if p s then insert_sample s (select p xs) else select p xs)
  insert_first_if p s xs h = elim (Bool-cases (p s)) [
    | inl t ↦ rw t (sym (insert_first s _ (All-select (Before s) p xs h)))
    | inr f ↦ rw f refl
  ]

  kept_order :
      (b c : Bool) (s x : Sample B) (u v : List (Sample B))
      → Before x s
      → u ≡ (if c then insert_sample s v else v)
      → (if b then x ∷ u else u)
        ≡ (if c then insert_sample s (if b then x ∷ v else v) else (if b then x ∷ v else v))
  kept_order true true s x u v t e = rw (t, e) refl
  kept_order true false s x u v t e = rw e refl
  kept_order false c s x u v t e = e

  select-insert_sample :
      (p : Sample B → Bool) (s : Sample B) (xs : List (Sample B))
      → All (Apart s) xs
      → Ascending xs
      → select p (insert_sample s xs) ≡ (if p s then insert_sample s (select p xs) else select p xs)
  select-insert_sample p s [] a h = refl
  select-insert_sample p s (x ∷ xs) a h = elim (Bool-cases (key_lt (key_of x) (key_of s))) [
    | inl t ↦ rw t (kept_order (p x) (p s) s x _ _ t (select-insert_sample p s xs a.1 h.1))
    | inr f ↦
        let first = Before-flip x s a.0 f in
        rw f (
          insert_first_if p s (x ∷ xs)
            (first, All-imp (Before s) xs (λ y. Before-trans s x y first) h.0))
  ]

  pub select-order_by :
      (p : Sample B → Bool) (rows : List (Sample B))
      → Distinct rows
      → select p (order_by rows) ≡ order_by (select p rows)
  unfolding order_by
  select-order_by p [] h = refl
  select-order_by p (s ∷ rows) h =
      select-insert_sample p s _ (All-order_by (Apart s) rows h.0) (order_by-Ascending rows h.1)
      ∙ rw (select-order_by p rows h.1) (order_if (p s))
    where
      order_if :
          (b : Bool)
          → (if b then insert_sample s (order_by (select p rows)) else order_by (select p rows))
            ≡ order_by (if b then s ∷ select p rows else select p rows)
      order_if true = refl
      order_if false = refl

  pub Distinct-select :
      (p : Sample B → Bool) (rows : List (Sample B)) → Distinct rows → Distinct (select p rows)
  Distinct-select p [] h = tt
  Distinct-select p (x ∷ rows) h = elim (Bool-cases (p x)) [
    | inl t ↦ rw t (All-select (Apart x) p rows h.0, Distinct-select p rows h.1)
    | inr f ↦ rw f (Distinct-select p rows h.1)
  ]

  select_all :
      (x : Sample B) (xs : List (Sample B))
      → All (Before x) xs
      → select (past (some (key_of x))) xs ≡ xs
  select_all x [] h = refl
  select_all x (y ∷ xs) h = rw (h.0) (ap (λ r. y ∷ r) (select_all x xs h.1))

  -- The rows past the key of a row are those after it.
  pub select-past :
      (d : List (Sample B)) (x : Sample B) (todo : List (Sample B))
      → Ascending (d ++ (x ∷ todo))
      → select (past (some (key_of x))) (d ++ (x ∷ todo)) ≡ todo
  select-past [] x todo h =
      let self : key_lt (key_of x) (key_of x) ≡ false = ground arith in
      rw self (select_all x todo h.0)
  select-past (y ∷ d) x todo h =
      let earlier : key_lt (key_of x) (key_of y) ≡ false =
        earlier_of (All-member (Before y) d x todo h.0) in
      rw earlier (select-past d x todo h.1)
    where
      earlier_of : Before y x → key_lt (key_of x) (key_of y) ≡ false
      earlier_of b = ground arith
