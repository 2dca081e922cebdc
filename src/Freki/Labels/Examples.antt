-- ===== src/Freki/Labels/Examples.antt =====
-- Two overlapping labels of an evening, of which the later one is deleted.
use grimnir.Base.{
  ℕ, pos, ◌≡◌, ◌≤◌, ◌<◌, refl, Bool, true, not, ◌==◌, Option, some, none, [], ◌∷◌, ◌++◌, map,
  if◌then◌else◌, select, Str, str_eq, codes, Reply, ok,
}
use grimnir.Freki.TrainingData.{Sample}
use grimnir.Freki.TrainingData.Order.{Distinct}
use grimnir.Freki.Labels.Defs.{
  Label, LabelCreate, Backfill, Store, granted, denied, in_range, relabelled, labelled_in,
  upsert_sample, upsert_samples, repeated, insert_training_samples_for_window, backfill_label,
  create_label, order_labels, apply_labels, cleaned, resync_training_samples, delete_label,
  list_labels,
}
use grimnir.Freki.Labels.Sorted.{Shows}
use grimnir.Freki.Labels.Delete.{delete_label-refines}
use grimnir.Freki.Labels.Mirror.{delete_label-mirrors}

abbrev den : Str
den = codes "den"

abbrev hall : Str
hall = codes "hall"

abbrev label : ℕ → ℕ → ℕ → Str → Label
label i start end room = record {
  id = i;
  time_start = start;
  time_end = end;
  room = room;
  occupants = pos 1;
  notes = none;
  created_at = i;
}

abbrev sample : ℕ → Option Str → Sample (Unit {0})
sample t l = record { time = t; receiver_id = 1; label = l; reading = tt }

abbrev evening : Store (Unit {0})
evening = record {
  rooms = den ∷ hall ∷ [];
  labels = label 1 0 6 den ∷ label 2 4 9 hall ∷ [];
  next_id = 3;
  csi = sample 2 (some den) ∷ sample 5 (some hall) ∷ sample 8 (some hall) ∷ sample 9 none ∷ [];
  training = sample 2 (some den) ∷ sample 5 (some hall) ∷ sample 8 (some hall) ∷ [];
}

program : Unit {0}
unfolding upsert_sample upsert_samples repeated insert_training_samples_for_window backfill_label
    create_label order_labels apply_labels cleaned resync_training_samples delete_label list_labels
    str_eq
program = tt

deleted_run : delete_label true granted 2 evening ≡ (
  ok tt,
  record evening {
    labels = label 1 0 6 den ∷ [];
    csi = sample 2 (some den) ∷ sample 5 (some den) ∷ sample 8 none ∷ sample 9 none ∷ [];
    training = sample 2 (some den) ∷ sample 5 (some den) ∷ [];
  },
)
unfolding program
deleted_run = refl

listed : list_labels 9 evening ≡ label 2 4 9 hall ∷ []
unfolding program
listed = refl

abbrev body : LabelCreate
body = record {
  time_start = 7;
  time_end = 10;
  room = codes " den";
  occupants = pos 2;
  notes = none;
}

abbrev is_space : ℕ → Bool
is_space c = c == 0x20

abbrev with_task : (Reply Label × Option Backfill) × Store (Unit {0}) → Store (Unit {0})
with_task ((reply, none), st) = st
with_task ((reply, some task), st) = backfill_label true granted task st

-- The task of a creation relabels the window and adds the new row to the mirror.
created_run :
    (with_task (create_label is_space body 11 evening)).training
    ≡ sample 2 (some den) ∷ sample 5 (some hall) ∷ sample 8 (some den) ∷ sample 9 (some den) ∷ []
unfolding program
created_run = refl

delete_label-refines_example :
    ((delete_label true denied 2 evening).0 ≡ ok tt)
    × ((delete_label true denied 2 evening).1.labels ≡ select (λ l. not (l.id == 2)) evening.labels)
    × ((says : ℕ → Option Str) × ((t : ℕ)
          → 4 ≤ t
          → t < 9
          → Shows (select (λ l. not (l.id == 2)) evening.labels) t (says t))
        × ((delete_label true denied 2 evening).1.csi
            ≡ map (λ s. if in_range 4 9 s then relabelled (says s.time) s else s) evening.csi))
delete_label-refines_example = delete_label-refines denied 2 (label 2 4 9 hall) evening refl

evening-Distinct : Distinct evening.csi
evening-Distinct = ((refl, (refl, (refl, tt))), ((refl, (refl, tt)), ((refl, tt), (tt, tt))))

delete_label-mirrors_example :
    (delete_label true granted 2 evening).1.training
    ≡ select (λ s. not (in_range 4 9 s)) evening.training
      ++ select (labelled_in 4 9) (delete_label true granted 2 evening).1.csi
delete_label-mirrors_example =
    delete_label-mirrors 2 (label 2 4 9 hall) evening refl evening-Distinct
