-- ===== src/Volva/Predict/Loop.antt =====
-- `stream_loop` of volva/src/volva/predict.py as a step over what the event source delivers.
use grimnir.Base.{
  ℕ, Bool, true, false, Option, none, some, List, [], map, ◌==◌, if◌then◌else◌, Dict,
}
use grimnir.Volva.Predict.Defs.{ActiveModel, ReceiverState, handle_row, Payload, maybe_publish}

-- A message with a decoded row, an event that the loop skips (another event type, or bad JSON), and
-- the end of a connection, by itself or by an exception other than a cancellation.
pub data StreamEvent (R : Type 0) : Type 0 where
  row : Option ℕ → R → StreamEvent R
  skipped : StreamEvent R
  lost : StreamEvent R

-- The variables of the loop.
pub record LoopState (R : Type 0) : Type 0 where
  pub state : Dict (ReceiverState R)
  pub last_published : Option Payload
  pub active_model_id : Option ℕ

abbrev pub same_model : Option ℕ → ℕ → Bool
same_model none k = false
same_model (some j) k = k == j

module _ {R : Type 0} where
  -- The guard on `holder.current` before a row is handled.
  abbrev pub adopt : ActiveModel R → LoopState R → LoopState R
  adopt model s =
      if same_model s.active_model_id model.id
      then s
      else record { state = []; last_published = none; active_model_id = some model.id }

  abbrev pub publish :
      Bool
      → ActiveModel R
      → LoopState R
      → Dict (ReceiverState R) × Bool
      → List Payload × LoopState R
  publish accepted model s (state, false) = ([], record s { state = state })
  publish accepted model s (state, true) =
      let (sent, last) =
        maybe_publish accepted model (map (λ (e : ℕ × ReceiverState R). e.1.votes) state)
          s.last_published in
      (sent, record s { state = state; last_published = last })

  abbrev pub clear_bufs : Dict (ReceiverState R) → Dict (ReceiverState R)
  clear_bufs = map (λ (e : ℕ × ReceiverState R). (e.0, record (e.1) { buf = [] }))

  abbrev pub on_row :
      ℕ → Option (ActiveModel R) → Bool → Option ℕ → R → LoopState R → List Payload × LoopState R
  on_row window_size none accepted rid r s =
      ([], record { state = []; last_published = none; active_model_id = none })
  on_row window_size (some model) accepted rid r s =
      let s' = adopt model s in
      publish accepted model s' (handle_row rid r model s'.state window_size)

  -- `current` is `holder.current` at this moment; `accepted` says whether a PUT would succeed.
  unfoldable pub stream_step :
      ℕ → Option (ActiveModel R) → Bool → StreamEvent R → LoopState R → List Payload × LoopState R
  stream_step window_size current accepted (row rid r) s =
      on_row window_size current accepted rid r s
  stream_step window_size current accepted skipped s = ([], s)
  stream_step window_size current accepted lost s = ([], record s { state = clear_bufs s.state })
