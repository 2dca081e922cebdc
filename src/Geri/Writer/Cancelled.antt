-- ===== src/Geri/Writer/Cancelled.antt =====
-- What `batch_writer` (geri/src/geri/main.py) has written when it is cancelled, and what is lost.
use mathlib.Core.List.{append_assoc}
use grimnir.Base.{
  ℕ, ◌+◌, ◌<◌, ◌≤◌, ◌≡◌, refl, ap, sym, ◌∙◌, inl, inr, Bool, true, false, Option, none, some, List,
  [], ◌∷◌, ◌++◌, ltb, leb, Bool-cases, Str, str_eq, arith, length, length-append, lookup, All,
}
use grimnir.Geri.Writer.Defs.{
  Entry, BatchRow, Writer, empty_writer, beat, add_packet, with_receiver, on_entry, WriterEvent,
  got, timeout, writer_step, run_writer, Ending, at_get, at_lookup, at_heartbeat, at_insert,
  at_timeout, cancelled, batch_writer,
}
use grimnir.Geri.Writer.Conserve.{
  stamp, Works, rows_of, beat-batch, CacheSound, written, writer_step-Kept, writer_step-short,
  run_writer-Kept, run_writer-short,
}

module _ (ids : Str → ℕ) where
  -- The packet that has left the queue and is not in the batch yet.
  abbrev pub in_hand : Ending → List BatchRow
  in_hand (at_get stored) = []
  in_hand (at_lookup e) = stamp ids e ∷ []
  in_hand (at_heartbeat e receiver_id committed) = stamp ids e ∷ []
  in_hand (at_insert e now answer beaten committed) = stamp ids e ∷ []
  in_hand (at_timeout committed) = []

  -- A lookup that was made before the cancellation answered with the receiver's id.
  abbrev pub Known : Ending → Type 0
  Known (at_insert e now answer beaten committed) = answer ≡ some (ids e.pkt.receiver_name)
  Known (at_get stored) = Unit
  Known (at_lookup e) = Unit
  Known (at_heartbeat e receiver_id committed) = Unit
  Known (at_timeout committed) = Unit

module _ (batch_size heartbeat_interval : ℕ) where
  with_receiver-unstored :
      (e : Entry) (now : ℕ) (beaten : Bool) (i : ℕ) (w : Writer)
      → (with_receiver batch_size heartbeat_interval e now beaten false i w).inserted ≡ w.inserted
  with_receiver-unstored e now beaten i w =
      unwritten (record { wall_time = e.wall_time; receiver_id = i; pkt = e.pkt })
        (beat heartbeat_interval beaten now i w)
      ∙ (beat-batch batch_size heartbeat_interval beaten now i w).1
    where
      unwritten :
          (r : BatchRow) (v : Writer) → (add_packet batch_size false r v).inserted ≡ v.inserted
      unwritten r v = elim (Bool-cases (leb batch_size (length (v.batch ++ (r ∷ []))))) [
        | inl t ↦ rw t refl
        | inr f ↦ rw f refl
      ]

  got-unstored :
      (e : Entry) (now : ℕ) (answer : Option ℕ) (beaten : Bool) (w : Writer)
      → (writer_step batch_size heartbeat_interval (got e now answer beaten false) w).inserted
        ≡ w.inserted
  unfolding writer_step
  got-unstored e now answer beaten w =
      go (lookup str_eq e.pkt.receiver_name w.receiver_cache) answer
    where
      go :
          (cached fresh : Option ℕ)
          → (on_entry batch_size heartbeat_interval e now cached fresh beaten false w).inserted
            ≡ w.inserted
      go (some i) fresh = with_receiver-unstored e now beaten i w
      go none none = refl
      go none (some i) = with_receiver-unstored e now beaten i _

  timeout-unstored :
      (w : Writer)
      → (writer_step batch_size heartbeat_interval (timeout false) w).inserted ≡ w.inserted
  unfolding writer_step
  timeout-unstored w = elim (Bool-cases (ltb 0 (length w.batch))) [
    | inl t ↦ rw t refl
    | inr f ↦ rw f refl
  ]

  module _ (ids : Str → ℕ) where
    -- The rows in the database and at most `batch_size` more are the given ones.
    abbrev pub AllBut : List BatchRow → List BatchRow → Type 0
    AllBut rows inserted =
        (lost : List BatchRow) × (inserted ++ lost ≡ rows) × (length lost ≤ batch_size)

    lost_with :
        (rows more : List BatchRow) (w : Writer) (inserted : List BatchRow)
        → inserted ≡ w.inserted
        → written batch_size heartbeat_interval ids w ≡ rows
        → length w.batch + length more ≤ batch_size
        → AllBut (rows ++ more) inserted
    lost_with rows more w inserted same all short = (
      w.batch ++ more,
      ap (λ l. l ++ (w.batch ++ more)) same
          ∙ sym (append_assoc w.inserted w.batch more)
          ∙ ap (λ l. l ++ more) all,
      omega (arith, length-append w.batch more, short),
    )

    cancelled-AllBut :
        (ending : Ending) (rows : List BatchRow) (w : Writer)
        → 0 < batch_size
        → Known ids ending
        → CacheSound batch_size heartbeat_interval ids w
        → written batch_size heartbeat_interval ids w ≡ rows
        → length w.batch < batch_size
        → AllBut
            (rows ++ in_hand ids ending)
            (cancelled batch_size heartbeat_interval ending w).inserted
    cancelled-AllBut (at_get true) rows w pos k c all short =
        ([], ap (λ l. l ++ []) all, omega arith)
    cancelled-AllBut (at_get false) rows w pos k c all short =
        lost_with rows [] w _ refl all (omega (arith, short))
    cancelled-AllBut (at_lookup e) rows w pos k c all short =
        lost_with rows _ w _ refl all (omega (arith, short))
    cancelled-AllBut (at_heartbeat e receiver_id committed) rows w pos k c all short =
        lost_with rows _ w _ refl all (omega (arith, short))
    cancelled-AllBut (at_insert e now answer beaten true) rows w pos k c all short =
        let ev = got e now answer beaten true in
        let (_, kept) = writer_step-Kept batch_size heartbeat_interval ids ev w (k, refl) c in
        let below = writer_step-short batch_size heartbeat_interval ev w pos short in
        (_, kept ∙ ap (λ l. l ++ (stamp ids e ∷ [])) all, omega (arith, below))
    cancelled-AllBut (at_insert e now answer beaten false) rows w pos k c all short =
        lost_with rows _ w _ (got-unstored e now answer beaten w) all (omega (arith, short))
    cancelled-AllBut (at_timeout true) rows w pos k c all short =
        let (_, kept) =
          writer_step-Kept batch_size heartbeat_interval ids (timeout true) w refl c in
        let below = writer_step-short batch_size heartbeat_interval (timeout true) w pos short in
        (_, kept ∙ ap (λ l. l ++ []) all, omega (arith, below))
    cancelled-AllBut (at_timeout false) rows w pos k c all short =
        lost_with rows [] w _ (timeout-unstored w) all (omega (arith, short))

    -- With a positive batch size and while the database works (what it answers in a cancelled turn
    -- included), the writer that is cancelled in `queue.get` and whose last insert works has put
    -- every packet taken from the queue into the database, in that order, each with its receiver's
    -- id. Wherever else it is cancelled, and if a cancelled or last insert is not carried out, the
    -- database has all of them, the packet in hand included, but for at most the last `batch_size`.
    pub batch_writer-Conserve :
        (evs : List WriterEvent) (ending : Ending)
        → 0 < batch_size
        → All (Works ids) evs
        → Known ids ending
        → ((batch_writer batch_size heartbeat_interval evs (at_get true) empty_writer).inserted
            ≡ rows_of ids evs)
          × AllBut
              (rows_of ids evs ++ in_hand ids ending)
              (batch_writer batch_size heartbeat_interval evs ending empty_writer).inserted
    unfolding batch_writer
    batch_writer-Conserve evs ending pos ok k =
        let w = run_writer batch_size heartbeat_interval evs empty_writer in
        let (sound, all) =
          run_writer-Kept batch_size heartbeat_interval ids evs empty_writer ok
            (λ name i e. absurd (cc e)) in
        (
          all,
          cancelled-AllBut ending _ w pos k sound all
              (run_writer-short batch_size heartbeat_interval evs empty_writer pos pos),
        )
