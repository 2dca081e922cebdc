-- ===== src/Freki/TrainingData/Examples.antt =====
-- Three matching rows of five, read two at a time.
use grimnir.Base.{
  ℕ, ◌≡◌, ◌<◌, refl, Bool, ◌==◌, Option, some, none, List, [], ◌∷◌, Str, str_eq, codes, arith,
  length, Reply, ok, http, if◌then◌else◌,
}
use grimnir.Freki.TrainingData.Defs.{
  Sample, Key, room_list, order_by, training_query, get_training_data, iter_training_data,
}
use grimnir.Freki.TrainingData.Cursor.{
  CursorLibrary, encode_cursor, decode_cursor, IsInverse, decode_cursor-encode_cursor,
}
use grimnir.Freki.TrainingData.Order.{Distinct}
use grimnir.Freki.TrainingData.Pages.{wanted, IsRequest, iter_training_data-all}

abbrev row : ℕ → ℕ → Option Str → Sample (Unit {0})
row t r label = record { time = t; receiver_id = r; label = label; reading = tt }

abbrev hall : Option Str
hall = some (codes "hall")

abbrev rows : List (Sample (Unit {0}))
rows = row 7 1 hall ∷ row 3 2 hall ∷ row 3 1 hall ∷ row 4 1 none ∷ row 9 1 hall ∷ []

-- A dictionary is the number before the text, and its JSON and base64 are itself.
abbrev look_up : List ℕ → Str → Reply (List ℕ)
look_up [] key = http 422
look_up (n ∷ s) key = if str_eq key (codes "t") then ok s else ok (n ∷ [])

abbrev first : List ℕ → Reply ℕ
first [] = http 422
first (n ∷ _) = ok n

abbrev library : CursorLibrary (List ℕ)
library = record {
  isoformat = λ t. t ∷ [];
  fromisoformat = first;
  int = first;
  dict = λ s n. n ∷ s;
  item = look_up;
  dumps = λ j. j;
  loads = some;
  b64encode = λ b. b;
  b64decode = some;
}

library-IsInverse : IsInverse library
unfolding str_eq
library-IsInverse = record {
  text = λ s. s;
  number = λ n. n ∷ [];
  base64 = λ b. refl;
  json = λ j. refl;
  item_t = λ s n. refl;
  item_r = λ s n. refl;
  time = λ t. refl;
  integer = λ n. refl;
}

abbrev encode : Key → Str
encode = encode_cursor library

abbrev decode : Str → Reply Key
decode = decode_cursor library

abbrev is_space : ℕ → Bool
is_space c = c == 0x20

abbrev rooms : Str
rooms = codes "den, hall"

program : Unit {0}
unfolding room_list order_by training_query get_training_data iter_training_data str_eq
program = tt

rooms-IsRequest : IsRequest is_space 3 9 rooms 2
unfolding program
rooms-IsRequest = record {
  rooms_given = omega arith;
  some_rows = omega arith;
  size_fits = omega arith;
  ordered = omega arith;
  some_room = omega arith;
  rooms_fit = omega arith;
}

rows-Distinct : Distinct rows
rows-Distinct = (
  (refl, (refl, (refl, (refl, tt)))),
  ((refl, (refl, (refl, tt))), ((refl, (refl, tt)), ((refl, tt), (tt, tt)))),
)

fuel_enough : length (wanted rows 3 9 (room_list is_space rooms)) < 4
unfolding program
fuel_enough = omega arith

iter_training_data-all_example :
    iter_training_data
      (λ cursor. get_training_data encode decode is_space none rows 3 9 rooms cursor 2)
      4
      none
    ≡ some (ok (wanted rows 3 9 (room_list is_space rooms)))
iter_training_data-all_example =
    iter_training_data-all encode decode is_space
      (decode_cursor-encode_cursor library library-IsInverse) none rows 3 9 rooms 2 4
      rooms-IsRequest rows-Distinct fuel_enough

wanted_run :
    wanted rows 3 9 (room_list is_space rooms) ≡ row 3 1 hall ∷ row 3 2 hall ∷ row 7 1 hall ∷ []
unfolding program
wanted_run = refl

bad_window : get_training_data encode decode is_space none rows 9 9 rooms none 2 ≡ http 422
unfolding program
bad_window = refl
