-- ===== src/Freki/Predictions/Examples.antt =====
-- Runs of the current prediction, and its theorems at one table and one subscription.
use grimnir.Base.{
  ℕ, ◌≡◌, refl, Option, none, some, List, [], ◌∷◌, codes, pos, negsuc, ok, http, if◌then◌else◌,
  ◌==◌,
}
use grimnir.Freki.Predictions.Defs.{
  PredictionUpdate, CurrentPrediction, put_current, get_current, event, keepalive, sleep,
  subscribed, poll, event_generator,
}
use grimnir.Freki.Predictions.Stream.{last_sent, last_found, event_generator-latest}

abbrev empty_kitchen : PredictionUpdate
empty_kitchen = record { timestamp = 5; model_id = 3; rooms = (codes "kitchen", pos 0) ∷ [] }

abbrev cook : PredictionUpdate
cook = record { timestamp = 9; model_id = 3; rooms = (codes "kitchen", pos 1) ∷ [] }

abbrev row : PredictionUpdate → CurrentPrediction
row p = record { id = 1; payload = p; updated_at = p.timestamp }

abbrev polls : List (Option CurrentPrediction × ℕ)
polls =
    (none, 1)
    ∷ (some (row empty_kitchen), 6)
    ∷ (some (row empty_kitchen), 21)
    ∷ (some (row cook), 22)
    ∷ (some (row cook), 23)
    ∷ []

abbrev payload_at : ℕ → PredictionUpdate
payload_at t = if t == 5 then empty_kitchen else cook

program : Unit {0}
unfolding put_current get_current event_generator poll
program = tt

negative :
    (put_current (record cook { rooms = (codes "kitchen", negsuc 0) ∷ [] }) 7 []).0 ≡ http 422
unfolding program
negative = refl

sent_items :
    event_generator polls (subscribed 0)
    ≡ sleep ∷ event empty_kitchen ∷ keepalive ∷ event cook ∷ sleep ∷ []
unfolding program
sent_items = refl

got : get_current (put_current cook 9 (row empty_kitchen ∷ [])).1 ≡ ok cook
unfolding program
got = refl

event_generator-latest_example :
    last_sent none (event_generator polls (subscribed 0)) ≡ last_found none polls
event_generator-latest_example =
    event_generator-latest payload_at polls 0 (tt, (refl, (refl, (refl, (refl, tt)))))
