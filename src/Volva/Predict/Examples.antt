-- ===== src/Volva/Predict/Examples.antt =====
-- A loop with windows of two rows, where a row is the room that it was measured in.
use mathlib.Core.List.{Mem}
use grimnir.Base.{
  ℕ, ◌≡◌, refl, true, Option, none, some, List, [], ◌∷◌, map, ◌++◌, ◌<◌, length, arith, Str, codes,
  str_eq,
}
use grimnir.Volva.Predict.Defs.{
  ActiveModel, Prediction, room, other_error, counter_from, best_from, top_vote, winners_of,
  aggregate, Payload, rooms_eq, maybe_publish, handle_row,
}
use grimnir.Volva.Predict.Loop.{StreamEvent, row, skipped, lost, LoopState, stream_step}
use grimnir.Volva.Predict.Rooms.{human_count, Heads, Some, aggregate-Wins}
use grimnir.Volva.Predict.Bounds.{LoopSound, stream_step-LoopSound}

abbrev kitchen : Str
kitchen = codes "kitchen"

abbrev attic : Str
attic = codes "attic"

-- It answers with the room of the oldest row.
abbrev guess : List Str → Prediction
guess [] = other_error
guess (r ∷ _) = room r

abbrev models : ℕ → ActiveModel Str
models i = record { id = i; classes = attic ∷ kitchen ∷ []; predict = guess }

program : Unit {0}
unfolding counter_from best_from top_vote winners_of aggregate rooms_eq maybe_publish handle_row
    stream_step str_eq
program = tt

abbrev started : LoopState Str
started = record { state = []; last_published = none; active_model_id = none }

abbrev run : List (StreamEvent Str) → LoopState Str → List Payload × LoopState Str
run [] s = ([], s)
run (ev ∷ evs) s =
    let (sent, s') = stream_step 2 (some (models 7)) true ev s in
    let (later, final) = run evs s' in (sent ++ later, final)

abbrev in_kitchen : Payload
in_kitchen = record { model_id = 7; rooms = (attic, 0) ∷ (kitchen, 1) ∷ [] }

-- Two windows of one receiver: the first is published, the second repeats it and is not.
published_once :
    (run
      (row (some 1) kitchen
        ∷ skipped
        ∷ row (some 1) kitchen
        ∷ row (some 1) kitchen
        ∷ row (some 1) kitchen
        ∷ [])
      started).0
    ≡ in_kitchen ∷ []
unfolding program
published_once = refl

-- A lost connection drops the half window.
lost_run : (run (row (some 1) kitchen ∷ lost ∷ row (some 1) kitchen ∷ []) started).0 ≡ []
unfolding program
lost_run = refl

abbrev history : List Str
history = kitchen ∷ attic ∷ kitchen ∷ []

history_top : top_vote history ≡ some kitchen
unfolding program
history_top = refl

aggregate-Wins_example :
    (map (λ e. e.0) (aggregate (history ∷ []) (attic ∷ kitchen ∷ [])) ≡ attic ∷ kitchen ∷ [])
    × (choice : List Str → Option Str) × ((v : List Str) (r : Str) → choice v ≡ some r → Heads r v)
    × ((v : List Str) → 0 < length v → (r : Str) × (choice v ≡ some r))
    × ((r : Str)
        → Mem r (attic ∷ kitchen ∷ [])
        → (Some (λ v. choice v ≡ some r) (history ∷ [])
            → human_count r (aggregate (history ∷ []) (attic ∷ kitchen ∷ [])) ≡ some 1)
          × ((¬ Some (λ v. choice v ≡ some r) (history ∷ []))
              → human_count r (aggregate (history ∷ []) (attic ∷ kitchen ∷ [])) ≡ some 0))
aggregate-Wins_example = aggregate-Wins (history ∷ []) (attic ∷ kitchen ∷ [])

abbrev half : LoopState Str
half = record {
  state = (1, record { buf = kitchen ∷ []; votes = kitchen ∷ [] }) ∷ [];
  last_published = some in_kitchen;
  active_model_id = some 7;
}

half-LoopSound : LoopSound 2 models (λ i. refl) half
half-LoopSound = record {
  receivers = (
    record {
      short = omega arith;
      few = omega arith;
      earned = ((kitchen ∷ kitchen ∷ [], refl, refl), tt);
    },
    tt,
  );
  published = refl;
}

stream_step-LoopSound_example :
    LoopSound 2 models
      (λ i. refl)
      (stream_step 2 (some (models 7)) true (row (some 1) attic) half).1
stream_step-LoopSound_example =
    stream_step-LoopSound 2 models (λ i. refl) (some 7) true (row (some 1) attic) half (omega arith)
      half-LoopSound
