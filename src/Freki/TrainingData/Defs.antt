-- ===== src/Freki/TrainingData/Defs.antt =====
-- `get_training_data` and its helpers, and the client's loop over the pages. The text of a cursor and
-- Python's test for white space are arguments.
use grimnir.Base.{
  ℕ, zero, suc, Bool, true, false, ◌&&◌, ◌||◌, Option, none, some, List, [], ◌∷◌, ◌++◌, map, ltb,
  leb, ◌==◌, if◌then◌else◌, Str, str_eq, length, take, select, exists, Reply, ok, http,
}

-- A row of training_samples or csi_samples; `reading` is all of it but time, receiver and label.
pub record Sample (B : Type 0) : Type 0 where
  pub time : ℕ
  pub receiver_id : ℕ
  pub label : Option Str
  pub reading : B

-- The pair in a cursor.
pub record Key : Type 0 where
  pub t : ℕ
  pub r : ℕ

-- `(time, receiver_id) < (time, receiver_id)` on SQL row values.
abbrev pub key_lt : Key → Key → Bool
key_lt a b = ltb a.t b.t || (a.t == b.t && ltb a.r b.r)

abbrev pub max_page_size : ℕ
max_page_size = 5000

abbrev pub max_rooms : ℕ
max_rooms = 32

-- `rooms.split(",")`: the piece before the first comma, and the others.
abbrev pub split_first : Str → Str × List Str
split_first [] = ([], [])
split_first (c ∷ s) =
    let (first, rest) = split_first s in if c == 0x2c then ([], first ∷ rest) else (c ∷ first, rest)

abbrev pub lstrip : (ℕ → Bool) → Str → Str
lstrip is_space [] = []
lstrip is_space (c ∷ s) = let rest = lstrip is_space s in if is_space c then rest else c ∷ s

abbrev pub rstrip : (ℕ → Bool) → Str → Str
rstrip is_space [] = []
rstrip is_space (c ∷ s) = keep (rstrip is_space s)
  where
    keep : Str → Str
    keep [] = if is_space c then [] else c ∷ []
    keep (d ∷ rest) = c ∷ d ∷ rest

abbrev pub strip : (ℕ → Bool) → Str → Str
strip is_space s = rstrip is_space (lstrip is_space s)

-- `[r.strip() for r in rooms.split(",") if r.strip()]`
unfoldable pub room_list : (ℕ → Bool) → Str → List Str
room_list is_space rooms =
    let (first, rest) = split_first rooms in
    select (λ r. ltb 0 (length r)) (map (strip is_space) (first ∷ rest))

abbrev pub labelled : Option Str → List Str → Bool
labelled none rooms = false
labelled (some label) rooms = exists (str_eq label) rooms

module _ {B : Type 0} where
  abbrev pub key_of : Sample B → Key
  key_of s = record { t = s.time; r = s.receiver_id }

  -- ORDER BY time, receiver_id, by insertion.
  abbrev pub insert_sample : Sample B → List (Sample B) → List (Sample B)
  insert_sample s [] = s ∷ []
  insert_sample s (x ∷ xs) =
      let rest = insert_sample s xs in if key_lt (key_of x) (key_of s) then x ∷ rest else s ∷ x ∷ xs

  unfoldable pub order_by : List (Sample B) → List (Sample B)
  order_by [] = []
  order_by (s ∷ rows) = insert_sample s (order_by rows)

  abbrev pub in_window : ℕ → ℕ → List Str → Sample B → Bool
  in_window time_start time_end rooms s =
      leb time_start s.time && (ltb s.time time_end && labelled s.label rooms)

  -- The condition that a cursor adds.
  abbrev pub past : Option Key → Sample B → Bool
  past none s = true
  past (some k) s = key_lt k (key_of s)

  unfoldable pub training_query :
      List (Sample B) → ℕ → ℕ → List Str → Option Key → ℕ → List (Sample B)
  training_query rows time_start time_end rooms cursor page_size =
      take (suc page_size)
        (order_by (select (λ s. past cursor s && in_window time_start time_end rooms s) rows))

  abbrev pub last_of : List (Sample B) → Option (Sample B)
  last_of [] = none
  last_of (s ∷ []) = some s
  last_of (s ∷ x ∷ xs) = last_of (x ∷ xs)

-- The table read: `none` for a permission error on training_samples.
abbrev pub readable : {B : Type 0} → Option (List (Sample B)) → List (Sample B) → List (Sample B)
readable none csi_samples = csi_samples
readable (some samples) csi_samples = samples

-- class TrainingDataPage
pub record Page (B : Type 0) : Type 0 where
  pub rows : List (Sample B)
  pub next_cursor : Option Str

-- The cursor of a request; `decode` answers with a code where it raises.
abbrev pub read_cursor : (Str → Reply Key) → Option Str → Reply (Option Key)
read_cursor decode none = ok none
read_cursor decode (some text) = elim (decode text) [ http c ↦ http c | ok k ↦ ok (some k) ]

module _ {B : Type 0} (encode : Key → Str) (decode : Str → Reply Key) (is_space : ℕ → Bool) where
  abbrev pub cursor_after : Option (Sample B) → Option Str
  cursor_after none = none
  cursor_after (some s) = some (encode (key_of s))

  -- The page cut from the rows that the query returned.
  abbrev pub page_of : ℕ → List (Sample B) → Page B
  page_of page_size samples =
      let page = take page_size samples in
      let more = ltb page_size (length samples) in
      record { rows = page; next_cursor = if more then cursor_after (last_of page) else none }

  abbrev pub queried : Reply (Option Key) → List (Sample B) → ℕ → ℕ → List Str → ℕ → Reply (Page B)
  queried (http c) rows time_start time_end rooms page_size = http c
  queried (ok cursor) rows time_start time_end rooms page_size =
      ok (page_of page_size (training_query rows time_start time_end rooms cursor page_size))

  -- The bounds on `rooms` and `page_size` are those of the declared parameters.
  unfoldable pub get_training_data :
      Option (List (Sample B)) → List (Sample B) → ℕ → ℕ → Str → Option Str → ℕ → Reply (Page B)
  get_training_data training_samples csi_samples time_start time_end rooms cursor page_size =
      let listed = room_list is_space rooms in
      if length rooms == 0 || (page_size == 0 || ltb max_page_size page_size)
      then http 422
      else if leb time_end time_start
      then http 422
      else if length listed == 0
      then http 422
      else if ltb max_rooms (length listed)
      then http 422
      else queried (read_cursor decode cursor) (readable training_samples csi_samples) time_start
          time_end listed page_size

-- `iter_training_data` over what the server answers to each cursor; `none` when the fuel, the number
-- of requests, runs out. `request` joins the room names and sends the other parameters.
module _ {B : Type 0} (request : Option Str → Reply (Page B)) where
  abbrev pub add_rows :
      List (Sample B) → Option (Reply (List (Sample B))) → Option (Reply (List (Sample B)))
  add_rows rows (some (ok more)) = some (ok (rows ++ more))
  add_rows rows (some (http code)) = some (http code)
  add_rows rows none = none

  unfoldable pub iter_training_data : ℕ → Option Str → Option (Reply (List (Sample B)))
  iter_training_data zero cursor = none
  iter_training_data (suc fuel) cursor = elim (request cursor) [
    | http code ↦ some (http code)
    | ok page ↦ elim (page.next_cursor) [
      | none ↦ some (ok page.rows)
      | some next ↦ add_rows page.rows (iter_training_data fuel (some next))
    ]
  ]
