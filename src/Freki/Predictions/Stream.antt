-- ===== src/Freki/Predictions/Stream.antt =====
-- What a reader of the current prediction gets: by GET, and as a subscriber of the stream.
use grimnir.Base.{
  ℕ, ◌≡◌, refl, ap, sym, ◌∙◌, inl, inr, true, Option, none, some, List, [], ◌∷◌, leb, ◌+◌, ◌==◌,
  ==_iff, Bool-cases, select, All, ok,
}
use grimnir.Freki.Predictions.Defs.{
  PredictionUpdate, CurrentPrediction, prediction_row_id, valid_update, upsert_prediction,
  put_current, get_current, StreamItem, event, keepalive, sleep, Subscriber, subscribed,
  seen_before, idle, poll, event_generator, stream_keepalive_s,
}

-- The table has one row at most under the id, as its primary key says.
abbrev pub One : List CurrentPrediction → Type 0
One [] = Unit
One (r ∷ rows) =
    (r.id ≡ prediction_row_id → select (λ x. x.id == prediction_row_id) rows ≡ []) × One rows

upsert_prediction-select :
    (payload : PredictionUpdate) (now : ℕ) (rows : List CurrentPrediction)
    → One rows
    → (r : CurrentPrediction) × (select
          (λ x. x.id == prediction_row_id)
          (upsert_prediction payload now rows)
        ≡ r ∷ [])
      × (r.payload ≡ payload)
upsert_prediction-select payload now [] h = (_, refl, refl)
upsert_prediction-select payload now (r ∷ rows) h = elim (Bool-cases (r.id == prediction_row_id)) [
  | inl t ↦
      let alone = h.0 ((==_iff r.id prediction_row_id).0 t) in
      (record r { payload = payload; updated_at = now }, rw t (rw t (rw alone refl)), refl)
  | inr f ↦
      let (x, e, same) = upsert_prediction-select payload now rows h.1 in (x, rw f (rw f e), same)
]

-- What is put is what is got.
pub get_current-put_current :
    (body : PredictionUpdate) (now : ℕ) (rows : List CurrentPrediction)
    → One rows
    → valid_update body ≡ true
    → get_current (put_current body now rows).1 ≡ ok body
unfolding get_current put_current
get_current-put_current body now rows h v =
    let (r, e, same) = upsert_prediction-select body now rows h in rw v (rw e (ap ok same))

-- The last payload sent, or else `o`.
abbrev pub last_sent : Option PredictionUpdate → List StreamItem → Option PredictionUpdate
last_sent o [] = o
last_sent o (event p ∷ items) = last_sent (some p) items
last_sent o (keepalive ∷ items) = last_sent o items
last_sent o (sleep ∷ items) = last_sent o items

-- The payload of the last row that a poll found, or else `o`.
abbrev pub last_found :
    Option PredictionUpdate → List (Option CurrentPrediction × ℕ) → Option PredictionUpdate
last_found o [] = o
last_found o ((none, _) ∷ polls) = last_found o polls
last_found o ((some row, _) ∷ polls) = last_found (some row.payload) polls

-- Rows with one update time have one payload.
abbrev pub Timed : (ℕ → PredictionUpdate) → Option CurrentPrediction × ℕ → Type 0
Timed payload_at (none, _) = Unit
Timed payload_at (some row, _) = row.payload ≡ payload_at row.updated_at

module _ (payload_at : ℕ → PredictionUpdate) where
  abbrev shown : Option ℕ → Option PredictionUpdate
  shown none = none
  shown (some u) = some (payload_at u)

  seen_before-shown :
      (o : Option ℕ) (t : ℕ) → seen_before o t ≡ true → shown o ≡ some (payload_at t)
  seen_before-shown none t e = absurd (cc e)
  seen_before-shown (some u) t e = ap (λ x. some (payload_at x)) ((==_iff u t).0 e)

  -- A turn that sends no event.
  idle-from :
      (polls : List (Option CurrentPrediction × ℕ)) (now : ℕ) (s : Subscriber)
      (x : Option PredictionUpdate)
      → ((t : ℕ)
          → last_sent
              (shown s.last_updated_at)
              (event_generator polls (record s { last_keepalive_at = t }))
            ≡ x)
      → last_sent (shown s.last_updated_at) ((idle now s).0 ∷ event_generator polls (idle now s).1)
        ≡ x
  idle-from polls now s x h =
      elim (Bool-cases (leb (s.last_keepalive_at + stream_keepalive_s) now)) [
        | inl t ↦ rw t (h now)
        | inr f ↦ rw f (h s.last_keepalive_at)
      ]

  event_generator-from :
      (polls : List (Option CurrentPrediction × ℕ)) (s : Subscriber)
      → All (Timed payload_at) polls
      → last_sent (shown s.last_updated_at) (event_generator polls s)
        ≡ last_found (shown s.last_updated_at) polls
  unfolding event_generator poll
  event_generator-from [] s h = refl
  event_generator-from ((none, now) ∷ polls) s h =
      idle-from polls now s _
        (λ t. event_generator-from polls (record s { last_keepalive_at = t }) h.1)
  event_generator-from ((some row, now) ∷ polls) s h =
      elim (Bool-cases (seen_before s.last_updated_at row.updated_at)) [
        | inl t ↦
            let same : shown s.last_updated_at ≡ some row.payload =
              seen_before-shown s.last_updated_at row.updated_at t ∙ ap some (sym h.0) in
            rw t (
              idle-from polls now s _ (λ k.
                event_generator-from polls (record s { last_keepalive_at = k }) h.1
                ∙ ap (λ o. last_found o polls) same))
        | inr f ↦
            let sent : shown (some row.updated_at) ≡ some row.payload = ap some (sym h.0) in
            let next : Subscriber = record {
              last_updated_at = some row.updated_at;
              last_keepalive_at = now;
            } in
            rw f (
              ap (λ o. last_sent o (event_generator polls next)) (sym sent)
              ∙ event_generator-from polls next h.1
              ∙ ap (λ o. last_found o polls) sent)
      ]

  -- When no two payloads have one update time, the last event that a subscriber was sent has the
  -- payload of the last row that a poll found.
  pub event_generator-latest :
      (polls : List (Option CurrentPrediction × ℕ)) (now : ℕ)
      → All (Timed payload_at) polls
      → last_sent none (event_generator polls (subscribed now)) ≡ last_found none polls
  event_generator-latest polls now h = event_generator-from polls (subscribed now) h
