-- ===== src/Volva/Predict/Defs.antt =====
-- The definitions of volva/src/volva/predict.py. `R` is the type of a decoded CSI row. The active
-- model's `predict` stands for `_predict_once`: feature extraction and the classifier.
use grimnir.Base.{
  ℕ, ◌+◌, ◌-◌, Bool, true, false, ◌&&◌, Option, none, some, List, [], ◌∷◌, ◌++◌, map, ltb, ◌==◌,
  if◌then◌else◌, Str, str_eq, length, drop, exists, Dict, dict_get, dict_set,
}

abbrev pub vote_history : ℕ
vote_history = 5

-- What `_predict_once` does: a room, or an exception of either `except` clause.
pub data Prediction : Type 0 where
  room : Str → Prediction
  value_error : Prediction
  other_error : Prediction

pub record ActiveModel (R : Type 0) : Type 0 where
  pub id : ℕ
  pub classes : List Str
  pub predict : List R → Prediction

-- class _ReceiverState
pub record ReceiverState (R : Type 0) : Type 0 where
  pub buf : List R
  pub votes : List Str

abbrev pub fresh_state : {R : Type 0} → ReceiverState R
fresh_state = record { buf = []; votes = [] }

-- `deque(maxlen=VOTE_HISTORY).append`: at the right, dropping from the left.
abbrev pub push_vote : List Str → Str → List Str
push_vote votes r = let all = votes ++ (r ∷ []) in drop (length all - vote_history) all

abbrev pub state_of : {R : Type 0} → Option (ReceiverState R) → ReceiverState R
state_of none = fresh_state
state_of (some s) = s

module _ {R : Type 0} where
  -- The branches behind the length test; the buffer is cleared on each.
  abbrev pub after_window : Prediction → ReceiverState R → ReceiverState R × Bool
  after_window (room r) s = (record { buf = []; votes = push_vote s.votes r }, true)
  after_window value_error s = (record s { buf = [] }, false)
  after_window other_error s = (record s { buf = [] }, false)

  abbrev pub add_row : ActiveModel R → ℕ → R → ReceiverState R → ReceiverState R × Bool
  add_row model window_size row s =
      let filled = record s { buf = s.buf ++ (row ∷ []) } in
      if ltb (length filled.buf) window_size
      then (filled, false)
      else after_window (model.predict filled.buf) filled

  -- `rid` is `row.get("receiver_id")`.
  unfoldable pub handle_row :
      Option ℕ → R → ActiveModel R → Dict (ReceiverState R) → ℕ → Dict (ReceiverState R) × Bool
  handle_row none row model state window_size = (state, false)
  handle_row (some rid) row model state window_size =
      let (s, voted) = add_row model window_size row (state_of (dict_get rid state)) in
      (dict_set rid s state, voted)

-- collections.Counter, in insertion order.
abbrev pub count_vote : Str → List (Str × ℕ) → List (Str × ℕ)
count_vote r [] = (r, 1) ∷ []
count_vote r ((s, n) ∷ c) = if str_eq s r then (s, n + 1) ∷ c else (s, n) ∷ count_vote r c

unfoldable pub counter_from : List (Str × ℕ) → List Str → List (Str × ℕ)
counter_from c [] = c
counter_from c (r ∷ rs) = counter_from (count_vote r c) rs

-- `most_common(1)`: the first entry with the largest count.
unfoldable pub best_from : Str × ℕ → List (Str × ℕ) → Str × ℕ
best_from best [] = best
best_from best (e ∷ c) = best_from (if ltb best.1 e.1 then e else best) c

abbrev pub best_of : List (Str × ℕ) → Option Str
best_of [] = none
best_of (e ∷ c) = some (best_from e c).0

unfoldable pub top_vote : List Str → Option Str
top_vote votes = best_of (counter_from [] votes)

abbrev pub add_winner : Option Str → List Str → List Str
add_winner none winners = winners
add_winner (some r) winners = r ∷ winners

unfoldable pub winners_of : List (List Str) → List Str
winners_of [] = []
winners_of (votes ∷ rest) = add_winner (top_vote votes) (winners_of rest)

-- The `rooms` object: each known room with its human_count.
unfoldable pub aggregate : List (List Str) → List Str → List (Str × ℕ)
aggregate votes_by_receiver known_rooms =
    let winners = winners_of votes_by_receiver in
    map (λ r. (r, if exists (str_eq r) winners then 1 else 0)) known_rooms

-- What was published last; the time stamp plays no part in the decision.
pub record Payload : Type 0 where
  pub model_id : ℕ
  pub rooms : List (Str × ℕ)

-- `rooms == last["rooms"]`: equality of dicts with the same keys in the same order.
unfoldable pub rooms_eq : List (Str × ℕ) → List (Str × ℕ) → Bool
rooms_eq [] [] = true
rooms_eq [] (_ ∷ _) = false
rooms_eq (_ ∷ _) [] = false
rooms_eq ((r, n) ∷ xs) ((s, m) ∷ ys) = str_eq r s && (n == m && rooms_eq xs ys)

abbrev pub unchanged : Option Payload → ℕ → List (Str × ℕ) → Bool
unchanged none model_id rooms = false
unchanged (some last) model_id rooms = model_id == last.model_id && rooms_eq rooms last.rooms

-- The requests sent, and what `_maybe_publish` returns; `accepted` says whether the PUT succeeds.
unfoldable pub maybe_publish :
    {R : Type 0}
    → Bool
    → ActiveModel R
    → List (List Str)
    → Option Payload
    → List Payload × Option Payload
maybe_publish accepted model votes last =
    let rooms = aggregate votes model.classes in
    let payload : Payload = record { model_id = model.id; rooms = rooms } in
    if unchanged last model.id rooms
    then ([], last)
    else (payload ∷ [], (if accepted then some payload else last))
