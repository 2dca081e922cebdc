-- ===== src/Freki/Labels/Defs.antt =====
-- The endpoints of freki/src/freki/routers/labels.py that write, and the background task that the
-- creation of a label leaves behind. Whether the database runs a transaction is an argument.
use grimnir.Base.{
  ℕ, ℤ, suc, Bool, false, not, ◌&&◌, ◌||◌, Option, none, some, is_some, List, [], ◌∷◌, ◌++◌, min,
  max, ltb, leb, ◌==◌, if◌then◌else◌, Str, str_eq, select, update, exists, Reply, ok, http,
}
use grimnir.Freki.TrainingData.{Sample}
use grimnir.Freki.Rooms.{valid_name}

-- class Label
pub record Label : Type 0 where
  pub id : ℕ
  pub time_start : ℕ
  pub time_end : ℕ
  pub room : Str
  pub occupants : ℤ
  pub notes : Option Str
  pub created_at : ℕ

pub record LabelCreate : Type 0 where
  pub time_start : ℕ
  pub time_end : ℕ
  pub room : Str
  pub occupants : ℤ
  pub notes : Option Str

-- The arguments of the task `_backfill_label_best_effort`.
pub record Backfill : Type 0 where
  pub label_id : ℕ
  pub window_start : ℕ
  pub window_end : ℕ
  pub room : Str

-- The tables: the names of `rooms`, `labels` with the next id, `csi_samples` and `training_samples`.
pub record Store (B : Type 0) : Type 0 where
  pub rooms : List Str
  pub labels : List Label
  pub next_id : ℕ
  pub csi : List (Sample B)
  pub training : List (Sample B)

-- How a transaction on training_samples ends: it runs, it is denied, or another DBAPIError.
pub data Access : Type 0 where
  granted : Access
  denied : Access
  failing : Access

-- The two validators of the body.
abbrev pub after_start : LabelCreate → Option LabelCreate
after_start body = if leb body.time_end body.time_start then none else some body

abbrev pub named_body : LabelCreate → Option Str → Option LabelCreate
named_body body none = none
named_body body (some room) = after_start (record body { room = room })

abbrev pub validated : (ℕ → Bool) → LabelCreate → Option LabelCreate
validated is_space body = named_body body (valid_name is_space body.room)

abbrev pub in_range : {B : Type 0} → ℕ → ℕ → Sample B → Bool
in_range window_start window_end s = leb window_start s.time && ltb s.time window_end

abbrev pub relabelled : {B : Type 0} → Option Str → Sample B → Sample B
relabelled room s = record s { label = room }

-- `UPDATE csi_samples SET label = ... WHERE time >= ... AND time < ...`
abbrev pub set_labels : {B : Type 0} → ℕ → ℕ → Option Str → List (Sample B) → List (Sample B)
set_labels window_start window_end room =
    update (in_range window_start window_end) (relabelled room)

abbrev pub same_key : {B : Type 0} → Sample B → Sample B → Bool
same_key a b = a.time == b.time && a.receiver_id == b.receiver_id

-- `ON CONFLICT (time, receiver_id) DO UPDATE SET label = EXCLUDED.label`
unfoldable pub upsert_sample : {B : Type 0} → Sample B → List (Sample B) → List (Sample B)
upsert_sample r [] = r ∷ []
upsert_sample r (x ∷ xs) =
    let rest = upsert_sample r xs in if same_key r x then relabelled r.label x ∷ xs else x ∷ rest

unfoldable pub upsert_samples : {B : Type 0} → List (Sample B) → List (Sample B) → List (Sample B)
upsert_samples [] training = training
upsert_samples (r ∷ rows) training = upsert_samples rows (upsert_sample r training)

-- PostgreSQL refuses a statement that would change one row twice.
unfoldable pub repeated : {B : Type 0} → List (Sample B) → Bool
repeated [] = false
repeated (r ∷ rows) = exists (same_key r) rows || repeated rows

abbrev pub labelled_in : {B : Type 0} → ℕ → ℕ → Sample B → Bool
labelled_in window_start window_end s = in_range window_start window_end s && is_some s.label

module _ {B : Type 0} where
  -- `none` is a DBAPIError.
  unfoldable pub insert_training_samples_for_window : ℕ → ℕ → Store B → Option (Store B)
  insert_training_samples_for_window window_start window_end st =
      let rows = select (labelled_in window_start window_end) st.csi in
      if repeated rows
      then none
      else some (record st { training = upsert_samples rows st.training })

  -- After a rollback the tables are those from before.
  abbrev pub or_rollback : Store B → Option (Store B) → Store B
  or_rollback before none = before
  or_rollback before (some st) = st

  abbrev pub sync_training_samples : Access → ℕ → ℕ → Store B → Store B
  sync_training_samples granted window_start window_end st =
      or_rollback st (insert_training_samples_for_window window_start window_end st)
  sync_training_samples denied window_start window_end st = st
  sync_training_samples failing window_start window_end st = st

  -- `runs` says whether the UPDATE of csi_samples goes through.
  unfoldable pub backfill_label : Bool → Access → Backfill → Store B → Store B
  backfill_label runs access t st =
      if runs
      then sync_training_samples access t.window_start t.window_end
          (record st { csi = set_labels t.window_start t.window_end (some t.room) st.csi })
      else st

  abbrev pub created_label :
      Option LabelCreate → ℕ → Store B → (Reply Label × Option Backfill) × Store B
  created_label none now st = ((http 422, none), st)
  created_label (some body) now st =
      let label : Label = record {
        id = st.next_id;
        time_start = body.time_start;
        time_end = body.time_end;
        room = body.room;
        occupants = body.occupants;
        notes = body.notes;
        created_at = now;
      } in
      let task : Backfill = record {
        label_id = st.next_id;
        window_start = body.time_start;
        window_end = body.time_end;
        room = body.room;
      } in
      if exists (str_eq body.room) st.rooms
      then (
        (ok label, some task),
        record st { labels = st.labels ++ (label ∷ []); next_id = suc st.next_id },
      )
      else ((http 422, none), record st { next_id = suc st.next_id })

  -- The reply with the task that is left, and the tables.
  unfoldable pub create_label :
      (ℕ → Bool) → LabelCreate → ℕ → Store B → (Reply Label × Option Backfill) × Store B
  create_label is_space body now st = created_label (validated is_space body) now st

abbrev pub overlaps : ℕ → ℕ → Label → Bool
overlaps window_start window_end l = ltb l.time_start window_end && ltb window_start l.time_end

-- ORDER BY time_start, created_at, id
abbrev pub label_before : Label → Label → Bool
label_before a b =
    ltb a.time_start b.time_start
    || (a.time_start == b.time_start
        && (ltb a.created_at b.created_at || (a.created_at == b.created_at && ltb a.id b.id)))

abbrev pub insert_label : Label → List Label → List Label
insert_label l [] = l ∷ []
insert_label l (x ∷ xs) =
    let rest = insert_label l xs in if label_before x l then x ∷ rest else l ∷ x ∷ xs

unfoldable pub order_labels : List Label → List Label
order_labels [] = []
order_labels (l ∷ ls) = insert_label l (order_labels ls)

-- `list_labels`, where `cutoff` is the time of the request less the minutes asked for.
abbrev pub insert_latest : Label → List Label → List Label
insert_latest l [] = l ∷ []
insert_latest l (x ∷ xs) =
    let rest = insert_latest l xs in if ltb l.time_start x.time_start then x ∷ rest else l ∷ x ∷ xs

abbrev pub latest_first : List Label → List Label
latest_first [] = []
latest_first (l ∷ ls) = insert_latest l (latest_first ls)

unfoldable pub list_labels : {B : Type 0} → ℕ → Store B → List Label
list_labels cutoff st = latest_first (select (λ l. leb cutoff l.time_end) st.labels)

abbrev pub find_label : ℕ → List Label → Option Label
find_label label_id [] = none
find_label label_id (l ∷ ls) = if l.id == label_id then some l else find_label label_id ls

module _ {B : Type 0} where
  -- The loop over the overlapping labels.
  unfoldable pub apply_labels : ℕ → ℕ → List Label → List (Sample B) → List (Sample B)
  apply_labels window_start window_end [] csi = csi
  apply_labels window_start window_end (l ∷ ls) csi =
      apply_labels window_start window_end ls
        (set_labels (max window_start l.time_start) (min window_end l.time_end) (some l.room) csi)

  -- The transaction of the delete.
  unfoldable pub cleaned : Label → Store B → Store B
  cleaned label st =
      let remaining = select (λ l. not (l.id == label.id)) st.labels in
      record st {
        labels = remaining;
        csi =
            apply_labels label.time_start label.time_end
              (order_labels (select (overlaps label.time_start label.time_end) remaining))
              (set_labels label.time_start label.time_end none st.csi);
      }

  -- `_resync_training_samples_best_effort`
  unfoldable pub resync_training_samples : Access → ℕ → ℕ → Store B → Store B
  resync_training_samples granted window_start window_end st = or_rollback st (
      insert_training_samples_for_window window_start window_end (record st {
        training = select (λ s. not (in_range window_start window_end s)) st.training;
      }))
  resync_training_samples denied window_start window_end st = st
  resync_training_samples failing window_start window_end st = st

  abbrev pub delete_found : Bool → Access → Option Label → Store B → Reply (Unit {0}) × Store B
  delete_found runs access none st = (http 404, st)
  delete_found runs access (some label) st =
      if runs
      then (
        ok tt,
        resync_training_samples access label.time_start label.time_end (cleaned label st),
      )
      else (http 503, st)

  unfoldable pub delete_label : Bool → Access → ℕ → Store B → Reply (Unit {0}) × Store B
  delete_label runs access label_id st = delete_found runs access (find_label label_id st.labels) st
