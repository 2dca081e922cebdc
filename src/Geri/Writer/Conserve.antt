-- ===== src/Geri/Writer/Conserve.antt =====
-- What the turns of `batch_writer` (geri/src/geri/main.py) write, and the length of its batch.
use mathlib.Core.List.{append-nil, append_assoc}
use grimnir.Base.{
  ℕ, ◌+◌, ◌<◌, ◌≡◌, ◌≢◌, refl, sym, ◌∙◌, inl, inr, Bool, true, false, ◌&&◌, Option, none, some,
  List, [], ◌∷◌, ◌++◌, ltb, leb, Bool-cases, Str, str_eq, str_eq_iff, arith, length, length-append,
  lookup, insert, lookup-insert_self, lookup-insert_ne, dict_get, All,
}
use grimnir.Geri.Writer.Defs.{
  Entry, BatchRow, Writer, flush, or_zero, beat, add_packet, with_receiver, on_entry, WriterEvent,
  got, timeout, writer_step, run_writer,
}

module _ (ids : Str → ℕ) where
  abbrev pub stamp : Entry → BatchRow
  stamp e = record { wall_time = e.wall_time; receiver_id = ids e.pkt.receiver_name; pkt = e.pkt }

  -- The database works: a lookup that is made answers with the receiver's id, and no write fails.
  abbrev pub Works : WriterEvent → Type 0
  Works (got e now answer beaten stored) =
      (answer ≡ some (ids e.pkt.receiver_name)) × (stored ≡ true)
  Works (timeout stored) = stored ≡ true

  -- The rows of the packets taken from the queue.
  abbrev pub rows_of : List WriterEvent → List BatchRow
  rows_of [] = []
  rows_of (got e now answer beaten stored ∷ evs) = stamp e ∷ rows_of evs
  rows_of (timeout stored ∷ evs) = rows_of evs

module _ (batch_size heartbeat_interval : ℕ) where
  add_packet-short :
      (stored : Bool) (r : BatchRow) (w : Writer)
      → 0 < batch_size
      → length w.batch < batch_size
      → length (add_packet batch_size stored r w).batch < batch_size
  add_packet-short stored r w pos h =
      elim (Bool-cases (leb batch_size (length (w.batch ++ (r ∷ []))))) [
        | inl t ↦ rw t (flushed stored)
        | inr f ↦ rw f (ground (arith, length-append w.batch (r ∷ [])))
      ]
    where
      flushed :
          (b : Bool)
          → length (flush b (record w { batch = w.batch ++ (r ∷ []) })).batch < batch_size
      flushed true = pos
      flushed false = pos

  pub beat-batch :
      (beaten : Bool) (now receiver_id : ℕ) (w : Writer)
      → ((beat heartbeat_interval beaten now receiver_id w).batch ≡ w.batch)
        × ((beat heartbeat_interval beaten now receiver_id w).inserted ≡ w.inserted)
        × ((beat heartbeat_interval beaten now receiver_id w).receiver_cache ≡ w.receiver_cache)
  beat-batch beaten now receiver_id w =
      elim (Bool-cases (
        ltb (or_zero (dict_get receiver_id w.last_heartbeat) + heartbeat_interval) now && beaten)) [
          | inl t ↦ rw t (refl, refl, refl)
          | inr f ↦ rw f (refl, refl, refl)
        ]

  with_receiver-short :
      (e : Entry) (now : ℕ) (beaten stored : Bool) (i : ℕ) (w : Writer)
      → 0 < batch_size
      → length w.batch < batch_size
      → length (with_receiver batch_size heartbeat_interval e now beaten stored i w).batch
        < batch_size
  with_receiver-short e now beaten stored i w pos h =
      add_packet-short stored _ (beat heartbeat_interval beaten now i w) pos
        (rw ((beat-batch beaten now i w).0) h)

  pub writer_step-short :
      (ev : WriterEvent) (w : Writer)
      → 0 < batch_size
      → length w.batch < batch_size
      → length (writer_step batch_size heartbeat_interval ev w).batch < batch_size
  unfolding writer_step
  writer_step-short (got e now answer beaten stored) w pos h =
      go (lookup str_eq e.pkt.receiver_name w.receiver_cache) answer
    where
      go :
          (cached fresh : Option ℕ)
          → length (on_entry batch_size heartbeat_interval e now cached fresh beaten stored w).batch
            < batch_size
      go (some i) fresh = with_receiver-short e now beaten stored i w pos h
      go none none = h
      go none (some i) = with_receiver-short e now beaten stored i _ pos h
  writer_step-short (timeout stored) w pos h = elim (Bool-cases (ltb 0 (length w.batch))) [
    | inl t ↦ rw t (flushed stored)
    | inr f ↦ rw f h
  ]
    where
      flushed : (b : Bool) → length (flush b w).batch < batch_size
      flushed true = pos
      flushed false = pos

  -- Whatever fails, after every event the pending batch is below a positive batch size.
  pub run_writer-short :
      (evs : List WriterEvent) (w : Writer)
      → 0 < batch_size
      → length w.batch < batch_size
      → length (run_writer batch_size heartbeat_interval evs w).batch < batch_size
  unfolding run_writer
  run_writer-short [] w pos h = h
  run_writer-short (ev ∷ evs) w pos h = run_writer-short evs _ pos (writer_step-short ev w pos h)

  module _ (ids : Str → ℕ) where
    -- The cache agrees with the database.
    abbrev pub CacheSound : Writer → Type 0
    CacheSound w =
        (name : Str) (i : ℕ) → lookup str_eq name w.receiver_cache ≡ some i → i ≡ ids name

    abbrev pub written : Writer → List BatchRow
    written w = w.inserted ++ w.batch

    abbrev pub Kept : List BatchRow → Writer → Writer → Type 0
    Kept rows w w' = CacheSound w' × (written w' ≡ written w ++ rows)

    add_packet-Kept :
        (stored : Bool) (r : BatchRow) (w : Writer)
        → stored ≡ true
        → CacheSound w
        → Kept (r ∷ []) w (add_packet batch_size stored r w)
    add_packet-Kept stored r w e h =
        rw e (elim (Bool-cases (leb batch_size (length (w.batch ++ (r ∷ []))))) [
          | inl t ↦ rw t (h, append-nil _ ∙ sym (append_assoc w.inserted w.batch (r ∷ [])))
          | inr f ↦ rw f (h, sym (append_assoc w.inserted w.batch (r ∷ [])))
        ])

    with_receiver-Kept :
        (e : Entry) (now : ℕ) (beaten stored : Bool) (w : Writer)
        → stored ≡ true
        → CacheSound w
        → Kept (stamp ids e ∷ []) w (
            with_receiver batch_size heartbeat_interval e now beaten stored
              (ids e.pkt.receiver_name)
              w)
    with_receiver-Kept e now beaten stored w ok h =
        let (same_batch, same_inserted, same_cache) =
          beat-batch beaten now (ids e.pkt.receiver_name) w in
        let (sound, all) =
          add_packet-Kept stored (stamp ids e)
            (beat heartbeat_interval beaten now (ids e.pkt.receiver_name) w) ok
            (λ name i. rw same_cache (h name i)) in
        (sound, rw all (rw (same_batch, same_inserted) refl))

    insert-CacheSound :
        (name : Str) (w : Writer)
        → CacheSound w
        → CacheSound (record w { receiver_cache = insert str_eq name (ids name) w.receiver_cache })
    insert-CacheSound name w h n i e = elim (Bool-cases (str_eq n name)) [
      | inl t ↦
          let same : n ≡ name = (str_eq_iff n name).0 t in
          let stored : some (ids name) ≡ some i =
            sym (lookup-insert_self str_eq str_eq_iff name (ids name) w.receiver_cache)
            ∙ (rw same at e) in
          rw same (sym (cc stored))
      | inr f ↦
          let apart : n ≢ name = λ same. absurd (cc ((str_eq_iff n name).1 same, f)) in
          h n i
            (sym (lookup-insert_ne str_eq str_eq_iff n name (ids name) w.receiver_cache apart) ∙ e)
    ]

    rows_of-cons :
        (ev : WriterEvent) (evs : List WriterEvent)
        → rows_of ids (ev ∷ []) ++ rows_of ids evs ≡ rows_of ids (ev ∷ evs)
    rows_of-cons (got e now answer beaten stored) evs = refl
    rows_of-cons (timeout stored) evs = refl

    pub writer_step-Kept :
        (ev : WriterEvent) (w : Writer)
        → Works ids ev
        → CacheSound w
        → Kept (rows_of ids (ev ∷ [])) w (writer_step batch_size heartbeat_interval ev w)
    unfolding writer_step
    writer_step-Kept (timeout stored) w ok h = rw ok (elim (Bool-cases (ltb 0 (length w.batch))) [
      | inl t ↦ rw t (h, refl)
      | inr f ↦ rw f (h, sym (append-nil _))
    ])
    writer_step-Kept (got e now answer beaten stored) w ok h =
        go (lookup str_eq e.pkt.receiver_name w.receiver_cache) refl
      where
        go :
            (cached : Option ℕ)
            → lookup str_eq e.pkt.receiver_name w.receiver_cache ≡ cached
            → Kept
                (stamp ids e ∷ [])
                w
                (on_entry batch_size heartbeat_interval e now cached answer beaten stored w)
        go (some i) found =
            rw (h e.pkt.receiver_name i found) (with_receiver-Kept e now beaten stored w ok.1 h)
        go none missed = rw (ok.0) (
            with_receiver-Kept e now beaten stored _ ok.1
              (insert-CacheSound e.pkt.receiver_name w h))

    pub run_writer-Kept :
        (evs : List WriterEvent) (w : Writer)
        → All (Works ids) evs
        → CacheSound w
        → Kept (rows_of ids evs) w (run_writer batch_size heartbeat_interval evs w)
    unfolding run_writer
    run_writer-Kept [] w ok h = (h, sym (append-nil _))
    run_writer-Kept (ev ∷ evs) w ok h =
        let (h', first) = writer_step-Kept ev w ok.0 h in
        let (sound, rest) = run_writer-Kept evs _ ok.1 h' in
        (
          sound,
          rest
              ∙ rw first (
                  append_assoc (written w) (rows_of ids (ev ∷ [])) (rows_of ids evs)
                  ∙ rw (rows_of-cons ev evs) refl),
        )
