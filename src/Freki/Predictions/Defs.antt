-- ===== src/Freki/Predictions/Defs.antt =====
-- The two endpoints over `current_predictions`, and the generator behind the event stream. Times are
-- seconds.
use grimnir.Base.{
  ℕ, ◌+◌, Bool, true, false, not, ◌&&◌, Option, none, some, List, [], ◌∷◌, leb, ◌==◌, if◌then◌else◌,
  Str, length, exists, select, ℤ, pos, negsuc, Reply, ok, http,
}

-- class PredictionUpdate; a room has its human_count.
pub record PredictionUpdate : Type 0 where
  pub timestamp : ℕ
  pub model_id : ℕ
  pub rooms : List (Str × ℤ)

-- class CurrentPrediction
pub record CurrentPrediction : Type 0 where
  pub id : ℕ
  pub payload : PredictionUpdate
  pub updated_at : ℕ

abbrev pub prediction_row_id : ℕ
prediction_row_id = 1

abbrev pub nonneg : ℤ → Bool
nonneg (pos _) = true
nonneg (negsuc _) = false

-- `min_length=1` on the rooms, `ge=0` on their counts.
abbrev pub valid_update : PredictionUpdate → Bool
valid_update body =
    leb 1 (length body.rooms) && not (exists (λ (r : Str × ℤ). not (nonneg r.1)) body.rooms)

-- INSERT ... ON CONFLICT (id) DO UPDATE
abbrev pub upsert_prediction :
    PredictionUpdate → ℕ → List CurrentPrediction → List CurrentPrediction
upsert_prediction payload now [] =
    record { id = prediction_row_id; payload = payload; updated_at = now } ∷ []
upsert_prediction payload now (r ∷ rows) =
    let rest = upsert_prediction payload now rows in
    if r.id == prediction_row_id
    then record r { payload = payload; updated_at = now } ∷ rows
    else r ∷ rest

-- `now` is the server's NOW().
unfoldable pub put_current :
    PredictionUpdate → ℕ → List CurrentPrediction → Reply (Unit {0}) × List CurrentPrediction
put_current body now rows =
    if valid_update body then (ok tt, upsert_prediction body now rows) else (http 422, rows)

-- `scalar_one_or_none` and the 404.
abbrev pub one_or_404 : List CurrentPrediction → Reply PredictionUpdate
one_or_404 [] = http 404
one_or_404 (r ∷ []) = ok r.payload
one_or_404 (_ ∷ _ ∷ _) = http 500

unfoldable pub get_current : List CurrentPrediction → Reply PredictionUpdate
get_current rows = one_or_404 (select (λ r. r.id == prediction_row_id) rows)

abbrev pub stream_keepalive_s : ℕ
stream_keepalive_s = 15

-- What one turn of `_event_generator` sends: the payload, a comment, or nothing before it sleeps.
pub data StreamItem : Type 0 where
  event : PredictionUpdate → StreamItem
  keepalive sleep : StreamItem

-- The variables of the generator.
pub record Subscriber : Type 0 where
  pub last_updated_at : Option ℕ
  pub last_keepalive_at : ℕ

abbrev pub subscribed : ℕ → Subscriber
subscribed now = record { last_updated_at = none; last_keepalive_at = now }

abbrev pub seen_before : Option ℕ → ℕ → Bool
seen_before none t = false
seen_before (some u) t = u == t

abbrev pub idle : ℕ → Subscriber → StreamItem × Subscriber
idle now s =
    if leb (s.last_keepalive_at + stream_keepalive_s) now
    then (keepalive, record s { last_keepalive_at = now })
    else (sleep, s)

-- One turn of the loop, with the row that the query finds and the time.
unfoldable pub poll : Option CurrentPrediction × ℕ → Subscriber → StreamItem × Subscriber
poll (none, now) s = idle now s
poll (some row, now) s = if seen_before s.last_updated_at row.updated_at then idle now s else (
  event row.payload,
  record { last_updated_at = some row.updated_at; last_keepalive_at = now },
)

unfoldable pub event_generator : List (Option CurrentPrediction × ℕ) → Subscriber → List StreamItem
unfolding poll
event_generator [] s = []
event_generator (p ∷ polls) s = let (item, s') = poll p s in item ∷ event_generator polls s'
