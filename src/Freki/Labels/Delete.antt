-- ===== src/Freki/Labels/Delete.antt =====
-- What `delete_label` (freki/src/freki/routers/labels.py) leaves on the samples.
use mathlib.Core.Path.{ap₂}
use grimnir.Base.{
  ℕ, ◌≤◌, ◌<◌, ◌≡◌, refl, ap, sym, ◌∙◌, inl, inr, Bool, true, false, not, Option, none, some, List,
  [], ◌∷◌, map, min, max, arith, ◌==◌, if◌then◌else◌, Bool-cases, Str, select, update, ok,
}
use grimnir.Freki.TrainingData.{Sample}
use grimnir.Freki.Labels.Defs.{
  Label, Store, Access, granted, denied, failing, in_range, relabelled, set_labels,
  insert_training_samples_for_window, overlaps, order_labels, find_label, apply_labels, cleaned,
  resync_training_samples, delete_label, repeated, labelled_in,
}
use grimnir.Freki.Labels.Sorted.{
  covers, Shows, order_labels-Ordered, All-order_labels_inv, Among-order_labels, Among-select,
  All-select_inv, shown, shown-IsLast,
}

module _ {B : Type 0} where
  abbrev set_one : ℕ → ℕ → Option Str → Sample B → Sample B
  set_one a b room s = if in_range a b s then relabelled room s else s

  abbrev label_after : ℕ → ℕ → List Label → Sample B → Sample B
  label_after ws we [] s = s
  label_after ws we (l ∷ ls) s =
      label_after ws we ls (set_one (max ws l.time_start) (min we l.time_end) (some l.room) s)

  update-map :
      (p : Sample B → Bool) (f : Sample B → Sample B) (xs : List (Sample B))
      → update p f xs ≡ map (λ s. if p s then f s else s) xs
  update-map p f [] = refl
  update-map p f (x ∷ xs) = ap (λ r. (if p x then f x else x) ∷ r) (update-map p f xs)

  map-map :
      (f g : Sample B → Sample B) (xs : List (Sample B)) → map f (map g xs) ≡ map (λ s. f (g s)) xs
  map-map f g [] = refl
  map-map f g (x ∷ xs) = ap (λ r. f (g x) ∷ r) (map-map f g xs)

  map_eq :
      (f g : Sample B → Sample B) (xs : List (Sample B))
      → ((s : Sample B) → f s ≡ g s)
      → map f xs ≡ map g xs
  map_eq f g [] h = refl
  map_eq f g (x ∷ xs) h = ap₂ (λ y r. y ∷ r) (h x) (map_eq f g xs h)

  apply_labels-map :
      (ws we : ℕ) (ls : List Label) (csi : List (Sample B))
      → apply_labels ws we ls csi ≡ map (label_after ws we ls) csi
  unfolding apply_labels
  apply_labels-map ws we [] csi = sym (map_id csi)
    where
      map_id : (xs : List (Sample B)) → map (λ s. s) xs ≡ xs
      map_id [] = refl
      map_id (x ∷ xs) = ap (λ r. x ∷ r) (map_id xs)
  apply_labels-map ws we (l ∷ ls) csi =
      apply_labels-map ws we ls _
      ∙ ap (map (label_after ws we ls)) (
          update-map (in_range (max ws l.time_start) (min we l.time_end)) (relabelled (some l.room))
            csi)
      ∙ map-map (label_after ws we ls)
          (set_one (max ws l.time_start) (min we l.time_end) (some l.room)) csi

  set_if :
      (b : Bool) (room : Option Str) (s : Sample B)
      → (if b then relabelled room s else s) ≡ relabelled (if b then room else s.label) s
  set_if true room s = refl
  set_if false room s = refl

  set_one-covers :
      (ws we : ℕ) (l : Label) (s : Sample B)
      → in_range ws we s ≡ true
      → set_one (max ws l.time_start) (min we l.time_end) (some l.room) s
        ≡ relabelled (if covers s.time l then some l.room else s.label) s
  set_one-covers ws we l s h =
      set_if (in_range (max ws l.time_start) (min we l.time_end) s) (some l.room) s
      ∙ ap (λ b. relabelled (if b then some l.room else s.label) s) same
    where
      same : in_range (max ws l.time_start) (min we l.time_end) s ≡ covers s.time l
      same = ground arith

  label_after-inside :
      (ws we : ℕ) (ls : List Label) (s : Sample B)
      → in_range ws we s ≡ true
      → label_after ws we ls s ≡ relabelled (shown s.time ls s.label) s
  label_after-inside ws we [] s h = refl
  label_after-inside ws we (l ∷ ls) s h =
      ap (label_after ws we ls) (set_one-covers ws we l s h)
      ∙ label_after-inside ws we ls
          (relabelled (if covers s.time l then some l.room else s.label) s) h

  set_one-outside :
      (ws we : ℕ) (l : Label) (s : Sample B)
      → in_range ws we s ≡ false
      → set_one (max ws l.time_start) (min we l.time_end) (some l.room) s ≡ s
  set_one-outside ws we l s h = ap (λ b. if b then relabelled (some l.room) s else s) apart
    where
      apart : in_range (max ws l.time_start) (min we l.time_end) s ≡ false
      apart = ground arith

  label_after-outside :
      (ws we : ℕ) (ls : List Label) (s : Sample B)
      → in_range ws we s ≡ false
      → label_after ws we ls s ≡ s
  label_after-outside ws we [] s h = refl
  label_after-outside ws we (l ∷ ls) s h =
      ap (label_after ws we ls) (set_one-outside ws we l s h) ∙ label_after-outside ws we ls s h

  -- The clearing and the loop together.
  relabelled-shown :
      (ws we : ℕ) (ls : List Label) (csi : List (Sample B))
      → apply_labels ws we ls (set_labels ws we none csi)
        ≡ map (λ s. if in_range ws we s then relabelled (shown s.time ls none) s else s) csi
  relabelled-shown ws we ls csi =
      apply_labels-map ws we ls _
      ∙ ap (map (label_after ws we ls)) (update-map (in_range ws we) (relabelled none) csi)
      ∙ map-map (label_after ws we ls) (set_one ws we none) csi
      ∙ map_eq _ _ csi pointwise
    where
      pointwise :
          (s : Sample B)
          → label_after ws we ls (set_one ws we none s)
            ≡ (if in_range ws we s then relabelled (shown s.time ls none) s else s)
      pointwise s = elim (Bool-cases (in_range ws we s)) [
        | inl t ↦ rw t (label_after-inside ws we ls (relabelled none s) t)
        | inr f ↦ rw f (label_after-outside ws we ls s f)
      ]

  pub resync-csi :
      (access : Access) (ws we : ℕ) (st : Store B)
      → ((resync_training_samples access ws we st).csi ≡ st.csi)
        × ((resync_training_samples access ws we st).labels ≡ st.labels)
  unfolding resync_training_samples insert_training_samples_for_window
  resync-csi granted ws we st = elim (Bool-cases (repeated (select (labelled_in ws we) st.csi))) [
    | inl t ↦ rw t (refl, refl)
    | inr f ↦ rw f (refl, refl)
  ]
  resync-csi denied ws we st = (refl, refl)
  resync-csi failing ws we st = (refl, refl)

-- The labels that overlap the window, in order, show of a moment in it what all of them do.
shown-Shows :
    (ws we t : ℕ) (ls : List Label)
    → ws ≤ t
    → t < we
    → Shows ls t (shown t (order_labels (select (overlaps ws we) ls)) none)
shown-Shows ws we t ls from to =
    elim (shown-IsLast t (order_labels (select (overlaps ws we) ls)) none
      (order_labels-Ordered (select (overlaps ws we) ls))) [
        | inl (no_one, e) ↦
            inl (All-select_inv _ (overlaps ws we) ls apart (All-order_labels_inv _ _ no_one), e)
        | inr (l, among, c, e, last) ↦ inr (
          l,
          Among-select (overlaps ws we) l ls (Among-order_labels l _ among),
          c,
          e,
          All-select_inv _ (overlaps ws we) ls (λ m a. λ y. absurd (cc (apart m a, y)))
              (All-order_labels_inv _ _ last),
        )
      ]
  where
    apart : (m : Label) → overlaps ws we m ≡ false → covers t m ≡ false
    apart m h = ground arith

-- Deleting a label that exists, in a transaction that runs, removes it, and gives each sample of its
-- window the room of the last surviving label that covers the sample's time, by start, creation and
-- id, or no room when none does; all else of the samples stays, also when the mirror in
-- training_samples cannot be written.
pub delete_label-refines :
    {B : Type 0} (access : Access) (label_id : ℕ) (label : Label) (st : Store B)
    → find_label label_id st.labels ≡ some label
    → ((delete_label true access label_id st).0 ≡ ok tt)
      × ((delete_label true access label_id st).1.labels
          ≡ select (λ l. not (l.id == label.id)) st.labels)
      × ((says : ℕ → Option Str) × ((t : ℕ)
            → label.time_start ≤ t
            → t < label.time_end
            → Shows (select (λ l. not (l.id == label.id)) st.labels) t (says t))
          × ((delete_label true access label_id st).1.csi
              ≡ map
                  (λ s.
                    if in_range label.time_start label.time_end s
                    then relabelled (says s.time) s
                    else s)
                  st.csi))
unfolding delete_label cleaned
delete_label-refines access label_id label st e =
    let remaining = select (λ l. not (l.id == label.id)) st.labels in
    let ws = label.time_start in
    let we = label.time_end in
    let (same_csi, same_labels) = resync-csi access ws we (cleaned label st) in
    rw e (
      refl,
      same_labels,
      (
        (λ t. shown t (order_labels (select (overlaps ws we) remaining)) none),
        (λ t from to. shown-Shows ws we t remaining from to),
        same_csi ∙ relabelled-shown ws we (order_labels (select (overlaps ws we) remaining)) st.csi,
      ),
    )
