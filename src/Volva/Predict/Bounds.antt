-- ===== src/Volva/Predict/Bounds.antt =====
-- The state of `stream_loop` (volva/src/volva/predict.py) between events.
use grimnir.Base.{
  ℕ, ◌-◌, ◌≤◌, ◌<◌, ◌≡◌, inl, inr, refl, ap, sym, subst, ◌∙◌, Bool, true, false, Option, none, some,
  List, [], ◌∷◌, ◌++◌, if◌then◌else◌, ltb, Str, arith, Bool-cases, ltb→lt, not_ltb, Option-cases,
  All, All-append, All-drop, length, length-append, length-drop, Dict, dict_get, All-dict_set,
  All-dict_get, ==_iff,
}
use grimnir.Volva.Predict.Defs.{
  ActiveModel, ReceiverState, fresh_state, Prediction, room, value_error, other_error, push_vote,
  after_window, add_row, state_of, handle_row, Payload, maybe_publish, aggregate, unchanged,
}
use grimnir.Volva.Predict.Loop.{
  StreamEvent, row, skipped, lost, LoopState, same_model, adopt, publish, clear_bufs, stream_step,
}

push_vote-few : (votes : List Str) (v : Str) → length (push_vote votes v) ≤ 5
push_vote-few votes v =
    omega (arith, length-drop (length (votes ++ (v ∷ [])) - 5) (votes ++ (v ∷ [])))

same_model→≡ : (a : Option ℕ) (k : ℕ) → same_model a k ≡ true → a ≡ some k
same_model→≡ none k e = cc
same_model→≡ (some j) k e = ap some (sym ((==_iff k j).0 e))

module _ {R : Type 0} (w : ℕ) where
  -- The vote is what the model predicts for some window of `w` rows.
  abbrev pub Predicted : ActiveModel R → Str → Type 0
  Predicted model v = (window : List R) × (length window ≡ w) × (model.predict window ≡ room v)

  -- Fewer rows than a window, at most five votes, and each of them a prediction of the model.
  pub record Sound (model : ActiveModel R) (s : ReceiverState R) : Type 0 where
    pub short : length s.buf < w
    pub few : length s.votes ≤ 5
    pub earned : All (Predicted model) s.votes

  after_window-Sound :
      (model : ActiveModel R) (p : Prediction) (buf : List R) (votes : List Str)
      → 0 < w
      → length buf ≡ w
      → model.predict buf ≡ p
      → length votes ≤ 5
      → All (Predicted model) votes
      → Sound model (after_window p (record { buf = buf; votes = votes })).0
  after_window-Sound model (room v) buf votes pos full e few earned = record {
    short = pos;
    few = push_vote-few votes v;
    earned =
        All-drop (Predicted model) _ (votes ++ (v ∷ []))
          (All-append (Predicted model) votes (v ∷ []) earned ((buf, full, e), tt));
  }
  after_window-Sound model value_error buf votes pos full e few earned = record {
    short = pos;
    few = few;
    earned = earned;
  }
  after_window-Sound model other_error buf votes pos full e few earned = record {
    short = pos;
    few = few;
    earned = earned;
  }

  add_row-Sound :
      (model : ActiveModel R) (r : R) (s : ReceiverState R)
      → 0 < w
      → Sound model s
      → Sound model (add_row model w r s).0
  add_row-Sound model r s pos h = elim (Bool-cases (ltb (length (s.buf ++ (r ∷ []))) w)) [
    | inl t ↦ rw t (record { short = ltb→lt _ w t; few = h.few; earned = h.earned })
    | inr f ↦ rw f (
        after_window-Sound model _ (s.buf ++ (r ∷ [])) s.votes pos
          (omega (arith, length-append s.buf (r ∷ []), h.short, not_ltb _ w f)) refl h.few h.earned)
  ]

  fresh_state-Sound : (model : ActiveModel R) → 0 < w → Sound model fresh_state
  fresh_state-Sound model pos = record { short = pos; few = omega arith; earned = tt }

  abbrev AllSound : ActiveModel R → Dict (ReceiverState R) → Type 0
  AllSound model = All (λ (e : ℕ × ReceiverState R). Sound model e.1)

  state_of-Sound :
      (model : ActiveModel R) (rid : ℕ) (state : Dict (ReceiverState R))
      → 0 < w
      → AllSound model state
      → Sound model (state_of (dict_get rid state))
  state_of-Sound model rid state pos h = elim (Option-cases (dict_get rid state)) [
    | inl e ↦ rw (e, state_of) (fresh_state-Sound model pos)
    | inr (s, e) ↦ rw (e, state_of) (All-dict_get (λ x. Sound model x.1) rid s state h e)
  ]

  handle_row-Sound :
      (model : ActiveModel R) (rid : Option ℕ) (r : R) (state : Dict (ReceiverState R))
      → 0 < w
      → AllSound model state
      → AllSound model (handle_row rid r model state w).0
  unfolding handle_row
  handle_row-Sound model none r state pos h = h
  handle_row-Sound model (some rid) r state pos h =
      All-dict_set (λ x. Sound model x.1) rid _ state
        (add_row-Sound model r _ pos (state_of-Sound model rid state pos h)) h

  clear_bufs-Sound :
      (model : ActiveModel R) (state : Dict (ReceiverState R))
      → 0 < w
      → AllSound model state
      → AllSound model (clear_bufs state)
  clear_bufs-Sound model [] pos h = tt
  clear_bufs-Sound model (e ∷ state) pos h = (
    record { short = pos; few = h.0.few; earned = h.0.earned },
    clear_bufs-Sound model state pos h.1,
  )

  -- `models` is what each model id stands for.
  module _ (models : ℕ → ActiveModel R) (ids : (i : ℕ) → (models i).id ≡ i) where
    -- The holder's model, by its id.
    abbrev pub served : Option ℕ → Option (ActiveModel R)
    served none = none
    served (some i) = some (models i)

    abbrev pub StateSound : Option ℕ → Dict (ReceiverState R) → Type 0
    StateSound none state = state ≡ []
    StateSound (some i) state = AllSound (models i) state

    abbrev pub LastSound : Option ℕ → Option Payload → Type 0
    LastSound active none = Unit
    LastSound active (some p) = active ≡ some p.model_id

    -- Without an active model nothing is kept; with one, every receiver's state is sound for it, and
    -- what was published last was published for it.
    pub record LoopSound (s : LoopState R) : Type 0 where
      pub receivers : StateSound s.active_model_id s.state
      pub published : LastSound s.active_model_id s.last_published

    adopt-LoopSound :
        (i : ℕ) (s : LoopState R)
        → LoopSound s
        → (AllSound (models i) (adopt (models i) s).state)
          × ((adopt (models i) s).active_model_id ≡ some i)
          × (LastSound (some i) (adopt (models i) s).last_published)
    adopt-LoopSound i s h = elim (Bool-cases (same_model s.active_model_id (models i).id)) [
      | inl t ↦
          let e : s.active_model_id ≡ some i =
            same_model→≡ s.active_model_id _ t ∙ ap some (ids i) in
          rw t (
            subst (λ a. StateSound a s.state) e h.receivers,
            e,
            subst (λ a. LastSound a s.last_published) e h.published,
          )
      | inr f ↦ rw f (tt, ap some (ids i), tt)
    ]

    maybe_publish-LastSound :
        (accepted : Bool) (i : ℕ) (votes : List (List Str)) (last : Option Payload)
        → LastSound (some i) last
        → LastSound (some i) (maybe_publish accepted (models i) votes last).1
    unfolding maybe_publish
    maybe_publish-LastSound accepted i votes last l =
        elim (Bool-cases (unchanged last (models i).id (aggregate votes (models i).classes))) [
          | inl t ↦ rw t l
          | inr f ↦ rw f (taken accepted)
        ]
      where
        taken :
            (b : Bool)
            → LastSound (some i) (
                if b
                then some (record {
                  model_id = (models i).id;
                  rooms = aggregate votes (models i).classes;
                })
                else last)
        taken true = sym (ap some (ids i))
        taken false = l

    clear_bufs-StateSound :
        (active : Option ℕ) (state : Dict (ReceiverState R))
        → 0 < w
        → StateSound active state
        → StateSound active (clear_bufs state)
    clear_bufs-StateSound none state pos h = rw h refl
    clear_bufs-StateSound (some i) state pos h = clear_bufs-Sound (models i) state pos h

    publish-LoopSound :
        (accepted : Bool) (i : ℕ) (s : LoopState R) (res : Dict (ReceiverState R) × Bool)
        → s.active_model_id ≡ some i
        → LastSound (some i) s.last_published
        → AllSound (models i) res.0
        → LoopSound (publish accepted (models i) s res).1
    publish-LoopSound accepted i s (state, false) e l h = record {
      receivers = rw e h;
      published = rw e l;
    }
    publish-LoopSound accepted i s (state, true) e l h = record {
      receivers = rw e h;
      published = rw e (maybe_publish-LastSound accepted i _ s.last_published l);
    }

    -- While the models served are those of `models`, every step keeps the loop's state small and
    -- belonging to the active model: fewer rows than a window per receiver, at most five votes, each
    -- of them a prediction of the active model for a full window, and a last payload of that model.
    pub stream_step-LoopSound :
        (current : Option ℕ) (accepted : Bool) (ev : StreamEvent R) (s : LoopState R)
        → 0 < w
        → LoopSound s
        → LoopSound (stream_step w (served current) accepted ev s).1
    unfolding stream_step
    stream_step-LoopSound none accepted (row rid r) s pos h = record {
      receivers = refl;
      published = tt;
    }
    stream_step-LoopSound (some i) accepted (row rid r) s pos h =
        let (all, act, last) = adopt-LoopSound i s h in
        publish-LoopSound accepted i (adopt (models i) s) _ act last
          (handle_row-Sound (models i) rid r _ pos all)
    stream_step-LoopSound current accepted skipped s pos h = h
    stream_step-LoopSound current accepted lost s pos h = record {
      receivers = clear_bufs-StateSound s.active_model_id s.state pos h.receivers;
      published = h.published;
    }
