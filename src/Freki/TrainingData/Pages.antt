-- ===== src/Freki/TrainingData/Pages.antt =====
-- The loop of `iter_training_data` (nornir/src/nornir/freki_client.py) over `get_training_data`.
use grimnir.Base.{
  ℕ, zero, suc, ◌≤◌, ◌<◌, ◌≡◌, refl, ap, sym, subst, ◌∙◌, inl, inr, Bool, true, false, ◌&&◌, ◌||◌,
  Option, none, some, List, [], ◌∷◌, ◌++◌, arith, ltb, leb, ltb→lt, not_ltb, ◌==◌, Bool-cases, Str,
  select, length, take, drop, take-append-drop, length-take, length-drop, Reply, ok,
}
use mathlib.Core.List.{append_assoc}
use grimnir.Freki.TrainingData.Defs.{
  Sample, Key, key_of, max_page_size, max_rooms, room_list, order_by, in_window, past,
  training_query, last_of, Page, read_cursor, page_of, readable, get_training_data,
  iter_training_data,
}
use grimnir.Freki.TrainingData.Order.{
  Ascending, Distinct, order_by-Ascending, select-order_by, Distinct-select, select-past,
}

-- The conditions that the endpoint puts on a request.
pub record IsRequest (is_space : ℕ → Bool) (time_start time_end : ℕ) (rooms : Str) (page_size : ℕ)
    : Type 0 where
  pub rooms_given : 0 < length rooms
  pub some_rows : 0 < page_size
  pub size_fits : page_size ≤ 5000
  pub ordered : time_start < time_end
  pub some_room : 0 < length (room_list is_space rooms)
  pub rooms_fit : length (room_list is_space rooms) ≤ 32

read_encoded :
    (encode : Key → Str) (decode : Str → Reply Key)
    → ((k : Key) → decode (encode k) ≡ ok k)
    → (k : Key) → read_cursor decode (some (encode k)) ≡ ok (some k)
read_encoded encode decode code k = rw (read_cursor, code k) refl

module _ {B : Type 0} where
  iter_last :
      (request : Option Str → Reply (Page B)) (fuel : ℕ) (cursor : Option Str)
      (rows : List (Sample B))
      → request cursor ≡ ok (record { rows = rows; next_cursor = none })
      → iter_training_data request (suc fuel) cursor ≡ some (ok rows)
  unfolding iter_training_data
  iter_last request fuel cursor rows e = rw (iter_training_data, e) refl

  iter_more :
      (request : Option Str → Reply (Page B)) (fuel : ℕ) (cursor : Option Str) (next : Str)
      (rows later : List (Sample B))
      → request cursor ≡ ok (record { rows = rows; next_cursor = some next })
      → iter_training_data request fuel (some next) ≡ some (ok later)
      → iter_training_data request (suc fuel) cursor ≡ some (ok (rows ++ later))
  unfolding iter_training_data
  iter_more request fuel cursor next rows later e rec = rw (iter_training_data, e) (rw rec refl)

  select-and :
      (p q : Sample B → Bool) (rows : List (Sample B))
      → select (λ s. p s && q s) rows ≡ select p (select q rows)
  select-and p q [] = refl
  select-and p q (s ∷ rows) = ground (arith, select-and p q rows)

  -- All the rows of the request, in order.
  abbrev pub wanted : List (Sample B) → ℕ → ℕ → List Str → List (Sample B)
  wanted rows time_start time_end rooms =
      order_by (select (in_window time_start time_end rooms) rows)

  -- What the query returns is a prefix of the wanted rows past the cursor.
  training_query-wanted :
      (rows : List (Sample B)) (time_start time_end : ℕ) (rooms : List Str) (cursor : Option Key)
      (n : ℕ)
      → Distinct rows
      → training_query rows time_start time_end rooms cursor n
        ≡ take (suc n) (select (past cursor) (wanted rows time_start time_end rooms))
  unfolding training_query
  training_query-wanted rows time_start time_end rooms cursor n h =
      rw (select-and (past cursor) (in_window time_start time_end rooms) rows) (
        ap (take (suc n)) (
          sym (
            select-order_by (past cursor) (select (in_window time_start time_end rooms) rows)
              (Distinct-select (in_window time_start time_end rooms) rows h))))

  select-none : (rows : List (Sample B)) → select (past none) rows ≡ rows
  select-none [] = refl
  select-none (s ∷ rows) = ap (λ r. s ∷ r) (select-none rows)

  last_of-split :
      (x : Sample B) (xs : List (Sample B))
      → (init : List (Sample B)) × (y : Sample B) × (last_of (x ∷ xs) ≡ some y)
        × (x ∷ xs ≡ init ++ (y ∷ []))
  last_of-split x [] = ([], x, refl, refl)
  last_of-split x (z ∷ xs) =
      let (init, y, e, f) = last_of-split z xs in (x ∷ init, y, e, ap (λ r. x ∷ r) f)

  take_short : (n : ℕ) (xs : List (Sample B)) → length xs ≤ n → take n xs ≡ xs
  take_short zero [] h = refl
  take_short zero (x ∷ xs) h = absurd (omega (arith, h))
  take_short (suc n) [] h = refl
  take_short (suc n) (x ∷ xs) h = ap (λ r. x ∷ r) (take_short n xs (omega (arith, h)))

  take-suc : (n : ℕ) (xs : List (Sample B)) → take n (take (suc n) xs) ≡ take n xs
  take-suc zero xs = refl
  take-suc (suc n) [] = refl
  take-suc (suc n) (x ∷ xs) = ap (λ r. x ∷ r) (take-suc n xs)

  module _ (encode : Key → Str) (decode : Str → Reply Key) (is_space : ℕ → Bool)
      (code : (k : Key) → decode (encode k) ≡ ok k) where
    -- A server that answers as `queried` does, page by page, over the ordered rows `all`.
    abbrev pub Serves : ℕ → List (Sample B) → (Option Str → Reply (Page B)) → Type 0
    Serves n all request =
        (cursor : Option Str) (k : Option Key)
        → read_cursor decode cursor ≡ ok k
        → request cursor
          ≡ ok (page_of encode decode is_space n (take (suc n) (select (past k) all)))

    page_last :
        (n : ℕ) (todo : List (Sample B))
        → length todo ≤ n
        → page_of encode decode is_space n (take (suc n) todo)
          ≡ record { rows = todo; next_cursor = none }
    page_last n todo h =
        let whole : take (suc n) todo ≡ todo = take_short (suc n) todo (omega (arith, h)) in
        let few : ltb n (length todo) ≡ false = ground arith in
        rw whole (rw few (rw (take_short n todo h) refl))

    page_more :
        (n : ℕ) (todo : List (Sample B))
        → 0 < n
        → n < length todo
        → (init : List (Sample B)) × (y : Sample B) × (take n todo ≡ init ++ (y ∷ []))
          × (page_of encode decode is_space n (take (suc n) todo)
              ≡ record { rows = take n todo; next_cursor = some (encode (key_of y)) })
    page_more zero todo pos h = absurd (omega (arith, pos))
    page_more (suc n) [] pos h = absurd (omega (arith, h))
    page_more (suc n) (x ∷ xs) pos h =
        let (init, y, e, f) = last_of-split x (take n xs) in
        let many : ltb (suc n) (length (take (suc (suc n)) (x ∷ xs))) ≡ true =
          ground (arith, length-take (suc (suc n)) (x ∷ xs)) in
        (init, y, f, rw many (rw (take-suc n xs) (rw e refl)))

    resplit :
        (before init : List (Sample B)) (y : Sample B) (after : List (Sample B))
        → before ++ (init ++ (y ∷ []) ++ after) ≡ (before ++ init) ++ (y ∷ after)
    resplit before init y after =
        ap (λ r. before ++ r) (append_assoc init (y ∷ []) after)
        ∙ sym (append_assoc before init (y ∷ after))

    paged :
        (n : ℕ) (all : List (Sample B)) (request : Option Str → Reply (Page B))
        → 0 < n
        → Ascending all
        → Serves n all request
        → (fuel : ℕ) (before todo : List (Sample B)) (cursor : Option Str) (k : Option Key)
        → all ≡ before ++ todo
        → read_cursor decode cursor ≡ ok k
        → select (past k) all ≡ todo
        → length todo < fuel
        → iter_training_data request fuel cursor ≡ some (ok todo)
    paged n all request pos asc serves zero before todo cursor k split read rest short =
        absurd (omega (arith, short))
    paged n all request pos asc serves (suc fuel) before todo cursor k split read rest short =
        let answer : request cursor ≡ ok (page_of encode decode is_space n (take (suc n) todo)) =
          serves cursor k read ∙ rw rest refl in
        elim (Bool-cases (ltb n (length todo))) [
          | inl t ↦
              let (init, y, cutting, page) = page_more n todo pos (ltb→lt _ _ t) in
              let apart : all ≡ (before ++ init) ++ (y ∷ drop n todo) =
                split
                ∙ ap (λ r. before ++ r)
                    (sym (take-append-drop n todo) ∙ ap (λ r. r ++ drop n todo) cutting)
                ∙ resplit before init y (drop n todo) in
              let later =
                paged n all request pos asc serves fuel (before ++ init ++ (y ∷ [])) (drop n todo)
                  (some (encode (key_of y))) (some (key_of y))
                  (apart ∙ sym (append_assoc (before ++ init) (y ∷ []) (drop n todo)))
                  (read_encoded encode decode code (key_of y))
                  (ap (select (past (some (key_of y)))) apart
                    ∙ select-past (before ++ init) y (drop n todo) (subst Ascending apart asc))
                  (omega (arith, length-drop n todo, ltb→lt _ _ t, short, pos)) in
              iter_more request fuel cursor _ _ _ (answer ∙ ap ok page) later
              ∙ ap (λ r. some (ok r)) (take-append-drop n todo)
          | inr f ↦
              iter_last request fuel cursor todo (answer ∙ ap ok (page_last n todo (not_ltb _ _ f)))
        ]

    get_training_data-Serves :
        (training_samples : Option (List (Sample B))) (csi_samples : List (Sample B))
        (time_start time_end : ℕ) (rooms : Str) (n : ℕ)
        → IsRequest is_space time_start time_end rooms n
        → Distinct (readable training_samples csi_samples)
        → Serves n
            (wanted
              (readable training_samples csi_samples)
              time_start
              time_end
              (room_list is_space rooms))
            (λ cursor.
              get_training_data encode decode is_space training_samples csi_samples time_start
                time_end rooms cursor n)
    unfolding get_training_data
    get_training_data-Serves training_samples csi_samples time_start time_end rooms n q h cursor k
          read =
        let given : (length rooms == 0) ≡ false = ground (arith, q.rooms_given) in
        let size : (n == 0 || ltb max_page_size n) ≡ false =
          ground (arith, q.some_rows, q.size_fits) in
        let order : leb time_end time_start ≡ false = ground (arith, q.ordered) in
        let listed : (length (room_list is_space rooms) == 0) ≡ false =
          ground (arith, q.some_room) in
        let few : ltb max_rooms (length (room_list is_space rooms)) ≡ false =
          ground (arith, q.rooms_fit) in
        rw (given, size, order)
          (rw (listed, few)
            (rw read (
              ap (λ r. ok (page_of encode decode is_space n r))
                (training_query-wanted (readable training_samples csi_samples) time_start time_end
                  (room_list is_space rooms) k n h))))

    -- When the endpoint accepts the request, cursors are read back as written, and no two rows share
    -- time and receiver, the client that follows the cursors to the end gets exactly the rows in the
    -- time window with a listed label, each once and in order of time and receiver, within one request
    -- more than there are rows.
    pub iter_training_data-all :
        (training_samples : Option (List (Sample B))) (csi_samples : List (Sample B))
        (time_start time_end : ℕ) (rooms : Str) (n fuel : ℕ)
        → IsRequest is_space time_start time_end rooms n
        → Distinct (readable training_samples csi_samples)
        → length (
            wanted
              (readable training_samples csi_samples)
              time_start
              time_end
              (room_list is_space rooms))
          < fuel
        → iter_training_data
            (λ cursor.
              get_training_data encode decode is_space training_samples csi_samples time_start
                time_end rooms cursor n)
            fuel
            none
          ≡ some (
              ok (
                wanted
                  (readable training_samples csi_samples)
                  time_start
                  time_end
                  (room_list is_space rooms)))
    iter_training_data-all training_samples csi_samples time_start time_end rooms n fuel q h
          enough =
        paged n _ _ q.some_rows (order_by-Ascending _ (Distinct-select _ _ h))
          (get_training_data-Serves training_samples csi_samples time_start time_end rooms n q h)
          fuel [] _ none none refl refl (select-none _) enough
