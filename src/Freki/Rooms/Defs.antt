-- ===== src/Freki/Rooms/Defs.antt =====
-- The endpoints of freki/src/freki/routers/rooms.py that write. The test for white space is an argument.
use grimnir.Base.{
  ℕ, ℤ, Bool, not, Option, none, some, List, [], ◌∷◌, ◌++◌, map, if◌then◌else◌, Str, str_eq, select,
  update, exists, Reply, ok, http,
}
use grimnir.Freki.TrainingData.{strip}

pub record Room : Type 0 where
  pub name : Str
  pub floor : ℤ
  pub created_at : ℕ

-- A row of `labels`, by what a rename touches.
pub record LabelRow : Type 0 where
  pub id : ℕ
  pub room : Str

-- The tables that a room's name stands in; of the sample tables the label column.
pub record House : Type 0 where
  pub rooms : List Room
  pub labels : List LabelRow
  pub csi_labels : List (Option Str)
  pub training_labels : List (Option Str)

-- What the database makes of the rewriting of the sample tables.
pub data Rewrite : Type 0 where
  works : Rewrite
  training_denied : Rewrite
  db_error : Rewrite

abbrev pub named : Str → Room → Bool
named name r = str_eq r.name name

-- The validator of `name`: `none` when nothing is left.
abbrev pub non_empty : Str → Option Str
non_empty [] = none
non_empty (c ∷ s) = some (c ∷ s)

abbrev pub valid_name : (ℕ → Bool) → Str → Option Str
valid_name is_space name = non_empty (strip is_space name)

abbrev pub created : Option Str → ℤ → ℕ → House → Reply Room × House
created none floor now h = (http 422, h)
created (some name) floor now h =
    if exists (named name) h.rooms
    then (http 409, h)
    else (let r : Room = record { name = name; floor = floor; created_at = now } in
        (ok r, record h { rooms = h.rooms ++ (r ∷ []) }))

-- The database also refuses a floor beyond SMALLINT, which is left out.
unfoldable pub create_room : (ℕ → Bool) → Str → ℤ → ℕ → House → Reply Room × House
create_room is_space name floor now h = created (valid_name is_space name) floor now h

abbrev pub relabel : Str → Str → Option Str → Option Str
relabel old_name new_name none = none
relabel old_name new_name (some l) = if str_eq l old_name then some new_name else some l

abbrev pub or_old {ℓ} : {A : Type ℓ} → Option A → A → A
or_old none old = old
or_old (some x) old = x

-- The row's update, with the cascade of the foreign key to `labels`.
abbrev pub renamed : Str → Str → Option ℤ → House → House
renamed old_name new_name floor h = record h {
  rooms =
      update (named old_name) (λ r. record r { name = new_name; floor = or_old floor r.floor })
        h.rooms;
  labels = update (λ l. str_eq l.room old_name) (λ l. record l { room = new_name }) h.labels;
}

abbrev pub rewrite_csi : Str → Str → House → House
rewrite_csi old_name new_name h = record h {
  csi_labels = map (relabel old_name new_name) h.csi_labels;
}

abbrev pub rewrite_training : Str → Str → House → House
rewrite_training old_name new_name h = record h {
  training_labels = map (relabel old_name new_name) h.training_labels;
}

abbrev pub found_room : Str → List Room → Reply Room
found_room name [] = http 500
found_room name (r ∷ rooms) = if named name r then ok r else found_room name rooms

abbrev pub reply_with : Str → House → Reply Room × House
reply_with name h = (found_room name h.rooms, h)

-- The sample tables are rewritten in the transaction of the rename.
abbrev pub rewritten : Rewrite → Str → Str → House → House → Reply Room × House
rewritten works old_name new_name before h =
    reply_with new_name (rewrite_training old_name new_name (rewrite_csi old_name new_name h))
rewritten training_denied old_name new_name before h =
    reply_with new_name (rewrite_csi old_name new_name h)
rewritten db_error old_name new_name before h = (http 503, before)

abbrev pub flushed : Rewrite → Str → Str → Option ℤ → House → Reply Room × House
flushed rewrite old_name new_name floor h =
    if str_eq new_name old_name
    then reply_with new_name (renamed old_name new_name floor h)
    else if exists (named new_name) h.rooms
    then (http 409, h)
    else rewritten rewrite old_name new_name h (renamed old_name new_name floor h)

abbrev pub updated : Rewrite → Str → Str → Option ℤ → House → Reply Room × House
updated rewrite room_name new_name floor h =
    if exists (named room_name) h.rooms
    then flushed rewrite room_name new_name floor h
    else (http 404, h)

-- The name of the body, `none` for a body that the validator refuses.
abbrev pub wanted_name : (ℕ → Bool) → Option Str → Str → Option Str
wanted_name is_space none room_name = some room_name
wanted_name is_space (some name) room_name = valid_name is_space name

abbrev pub checked_update : Option Str → Rewrite → Str → Option ℤ → House → Reply Room × House
checked_update none rewrite room_name floor h = (http 422, h)
checked_update (some new_name) rewrite room_name floor h =
    updated rewrite room_name new_name floor h

unfoldable pub update_room :
    (ℕ → Bool) → Rewrite → Str → Option Str → Option ℤ → House → Reply Room × House
update_room is_space rewrite room_name name floor h =
    checked_update (wanted_name is_space name room_name) rewrite room_name floor h

-- The foreign key from `labels` keeps a room that is in use.
unfoldable pub delete_room : Str → House → Reply (Unit {0}) × House
delete_room room_name h =
    if exists (named room_name) h.rooms
    then (if exists (λ l. str_eq l.room room_name) h.labels
        then (http 409, h)
        else (ok tt, record h { rooms = select (λ r. not (named room_name r)) h.rooms }))
    else (http 404, h)
