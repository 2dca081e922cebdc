-- ===== src/Freki/Labels/Mirror.antt =====
-- training_samples after a label is deleted or backfilled (freki/src/freki/routers/labels.py).
use mathlib.Core.List.{append_assoc, append-nil}
use grimnir.Base.{
  ℕ, ◌≡◌, refl, ap, sym, ◌∙◌, inl, inr, Bool, true, false, not, Option, none, some, List, [], ◌∷◌,
  ◌++◌, map, arith, if◌then◌else◌, Bool-cases, Str, select, update, exists, All, All-append,
}
use grimnir.Freki.TrainingData.{Sample}
use grimnir.Freki.TrainingData.Order.{Apart, Distinct, Distinct-select}
use grimnir.Freki.Labels.Delete.{resync-csi}
use grimnir.Freki.Labels.Defs.{
  Label, Store, granted, in_range, relabelled, same_key, upsert_sample, upsert_samples, repeated,
  labelled_in, insert_training_samples_for_window, find_label, apply_labels, cleaned,
  resync_training_samples, delete_label,
}

module _ {B : Type 0} where
  All-map :
      (P : Sample B → Type 0) (f : Sample B → Sample B) (xs : List (Sample B))
      → ((s : Sample B) → P s → P (f s))
      → All P xs
      → All P (map f xs)
  All-map P f [] keep h = tt
  All-map P f (x ∷ xs) keep h = (keep x h.0, All-map P f xs keep h.1)

  update-Distinct :
      (p : Sample B → Bool) (room : Option Str) (xs : List (Sample B))
      → Distinct xs
      → Distinct (update p (relabelled room) xs)
  update-Distinct p room [] h = tt
  update-Distinct p room (x ∷ xs) h = (head (p x), update-Distinct p room xs h.1)
    where
      one : (b : Bool) (y : Sample B) → Apart x y → Apart x (if b then relabelled room y else y)
      one true y a = a
      one false y a = a

      tail :
          (ys : List (Sample B)) → All (Apart x) ys → All (Apart x) (update p (relabelled room) ys)
      tail [] a = tt
      tail (y ∷ ys) a = (one (p y) y a.0, tail ys a.1)

      head :
          (b : Bool)
          → All (Apart (if b then relabelled room x else x)) (update p (relabelled room) xs)
      head true = tail xs h.0
      head false = tail xs h.0

  apply_labels-Distinct :
      (ws we : ℕ) (ls : List Label) (csi : List (Sample B))
      → Distinct csi
      → Distinct (apply_labels ws we ls csi)
  unfolding apply_labels
  apply_labels-Distinct ws we [] csi h = h
  apply_labels-Distinct ws we (l ∷ ls) csi h =
      apply_labels-Distinct ws we ls _ (update-Distinct _ (some l.room) csi h)

  exists-Apart :
      (r : Sample B) (xs : List (Sample B)) → All (Apart r) xs → exists (same_key r) xs ≡ false
  exists-Apart r [] h = refl
  exists-Apart r (x ∷ xs) h = rw (h.0) (exists-Apart r xs h.1)

  repeated-Distinct : (xs : List (Sample B)) → Distinct xs → repeated xs ≡ false
  unfolding repeated
  repeated-Distinct [] h = refl
  repeated-Distinct (x ∷ xs) h = rw (exists-Apart x xs h.0) (repeated-Distinct xs h.1)

  upsert_sample-new :
      (r : Sample B) (training : List (Sample B))
      → All (Apart r) training
      → upsert_sample r training ≡ training ++ (r ∷ [])
  unfolding upsert_sample
  upsert_sample-new r [] h = refl
  upsert_sample-new r (x ∷ xs) h = rw (h.0) (ap (λ q. x ∷ q) (upsert_sample-new r xs h.1))

  Apart-sym : (x y : Sample B) → Apart x y → Apart y x
  Apart-sym x y h = ground arith

  upsert_samples-new :
      (rows training : List (Sample B))
      → Distinct rows
      → All (λ r. All (Apart r) training) rows
      → upsert_samples rows training ≡ training ++ rows
  unfolding upsert_samples
  upsert_samples-new [] training d h = sym (append-nil training)
  upsert_samples-new (r ∷ rows) training d h = rw (upsert_sample-new r training h.0) (
      upsert_samples-new rows (training ++ (r ∷ [])) d.1 (both rows d.0 h.1)
      ∙ append_assoc training (r ∷ []) rows)
    where
      both :
          (xs : List (Sample B))
          → All (Apart r) xs
          → All (λ x. All (Apart x) training) xs
          → All (λ x. All (Apart x) (training ++ (r ∷ []))) xs
      both [] a b = tt
      both (x ∷ xs) a b =
          (All-append (Apart x) training (r ∷ []) b.0 (Apart-sym r x a.0, tt), both xs a.1 b.1)

  in_and_out :
      (ws we : ℕ) (r x : Sample B)
      → labelled_in ws we r ≡ true
      → in_range ws we x ≡ false
      → Apart r x
  in_and_out ws we r x h f = ground arith

  -- A row in the window stands apart from those outside it.
  outside-Apart :
      (ws we : ℕ) (r : Sample B) (training : List (Sample B))
      → labelled_in ws we r ≡ true
      → All (Apart r) (select (λ s. not (in_range ws we s)) training)
  outside-Apart ws we r [] h = tt
  outside-Apart ws we r (x ∷ xs) h = elim (Bool-cases (in_range ws we x)) [
    | inl t ↦ rw t (outside-Apart ws we r xs h)
    | inr f ↦ rw f (in_and_out ws we r x h f, outside-Apart ws we r xs h)
  ]

  labelled-Apart :
      (ws we : ℕ) (rows training : List (Sample B))
      → All
          (λ r. All (Apart r) (select (λ s. not (in_range ws we s)) training))
          (select (labelled_in ws we) rows)
  labelled-Apart ws we [] training = tt
  labelled-Apart ws we (r ∷ rows) training = elim (Bool-cases (labelled_in ws we r)) [
    | inl t ↦ rw t (outside-Apart ws we r training t, labelled-Apart ws we rows training)
    | inr f ↦ rw f (labelled-Apart ws we rows training)
  ]

  resync-training :
      (ws we : ℕ) (st : Store B)
      → Distinct st.csi
      → (resync_training_samples granted ws we st).training
        ≡ select (λ s. not (in_range ws we s)) st.training ++ select (labelled_in ws we) st.csi
  unfolding resync_training_samples insert_training_samples_for_window
  resync-training ws we st d =
      let d' = Distinct-select (labelled_in ws we) st.csi d in
      rw (repeated-Distinct (select (labelled_in ws we) st.csi) d') (
        upsert_samples-new (select (labelled_in ws we) st.csi) _ d'
          (labelled-Apart ws we st.csi st.training))

-- When no two rows of csi_samples share time and receiver and all transactions run, a label's delete
-- leaves in training_samples the rows from outside its window as they were, and inside it exactly the
-- rows of csi_samples that have a label then, with that label.
pub delete_label-mirrors :
    {B : Type 0} (label_id : ℕ) (label : Label) (st : Store B)
    → find_label label_id st.labels ≡ some label
    → Distinct st.csi
    → (delete_label true granted label_id st).1.training
      ≡ select (λ s. not (in_range label.time_start label.time_end s)) st.training
        ++ select
            (labelled_in label.time_start label.time_end)
            (delete_label true granted label_id st).1.csi
unfolding delete_label cleaned
delete_label-mirrors label_id label st e d =
    let d' : Distinct (cleaned label st).csi =
      apply_labels-Distinct label.time_start label.time_end _ _ (update-Distinct _ none st.csi d) in
    rw e (
      resync-training label.time_start label.time_end (cleaned label st) d'
      ∙ ap
          (λ c.
            select (λ s. not (in_range label.time_start label.time_end s)) st.training
            ++ select (labelled_in label.time_start label.time_end) c)
          (sym ((resync-csi granted label.time_start label.time_end (cleaned label st)).0)))
