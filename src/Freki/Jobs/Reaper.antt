-- ===== src/Freki/Jobs/Reaper.antt =====
-- What a reaper pass does to the work in the queue (freki/src/freki/orphan_reaper.py).
use mathlib.Core.List.{Perm, append-nil, perm_middle}
use mathlib.Core.List.Perm
use native.Mathlib.Nat.{add-zero}
use grimnir.Base.{
  ℕ, suc, ◌+◌, ◌<◌, ◌↔◌, ◌≡◌, refl, ap, ◌∙◌, Bool, true, some, List, [], ◌∷◌, ◌++◌, map, arith,
  select, update, update_none, select-append, Bool-cases, inl, inr,
}
use grimnir.Freki.Jobs.Defs.{TrainingJob, Db, running, is_live}
use grimnir.Freki.Jobs.Handlers.{reap_once, reap_row, is_orphan, insert_jobs}
use grimnir.Freki.Jobs.Progress.{orphan-is_live}
use grimnir.Freki.Jobs.Table.{find, find-update, find-append}

module _ {S : Type 0} where
  abbrev live : TrainingJob S → Bool
  live j = is_live j.status

  -- The specifications that are queued or being worked on.
  pub pending : List (TrainingJob S) → List S
  pending js = map (λ j. j.spec) (select (λ j. is_live j.status) js)

  pending-append : (js ks : List (TrainingJob S)) → pending (js ++ ks) ≡ pending js ++ pending ks
  unfolding pending
  pending-append [] ks = refl
  pending-append (j ∷ js) ks = ground (arith, pending-append js ks)

  pending-insert_jobs : (id now : ℕ) (specs : List S) → pending (insert_jobs id now specs) ≡ specs
  unfolding pending
  pending-insert_jobs id now [] = refl
  pending-insert_jobs id now (x ∷ specs) = ap (◌∷◌ x) (pending-insert_jobs (suc id) now specs)

  abbrev reaped : ℕ → ℕ → List (TrainingJob S) → List S
  reaped timeout now js = map (λ j. j.spec) (select (is_orphan timeout now) js)

  reaped-perm :
      (timeout now : ℕ) (js : List (TrainingJob S))
      → Perm
          (pending (update (is_orphan timeout now) (reap_row now) js) ++ reaped timeout now js)
          (pending js)
  unfolding pending
  reaped-perm timeout now [] = Perm.refl []
  reaped-perm timeout now (j ∷ js) = elim (Bool-cases (is_orphan timeout now j)) [
    | inl h ↦
        let alive = orphan-is_live timeout now j h in
        rw (h, alive)
          (Perm.trans (perm_middle (pending (update (is_orphan timeout now) (reap_row now) js)) _)
            (Perm.cons j.spec (reaped-perm timeout now js)))
    | inr h ↦ elim (Bool-cases (is_live j.status)) [
      | inl alive ↦ rw (h, alive) (Perm.cons j.spec (reaped-perm timeout now js))
      | inr over ↦ rw (h, over) (reaped-perm timeout now js)
    ]
  ]

  -- A pass loses no work and makes none up: the specifications that are queued or running afterwards
  -- are those from before, each as often, up to order.
  pub reap_once-pending :
      (timeout now : ℕ) (db : Db S)
      → Perm (pending (reap_once timeout now db).1.jobs) (pending db.jobs)
  unfolding reap_once
  reap_once-pending timeout now db =
      rw (pending-append, pending-insert_jobs) (reaped-perm timeout now db.jobs)

  -- The worker of a running job has been silent for longer than the timeout.
  abbrev pub Orphan : ℕ → ℕ → TrainingJob S → Type 0
  Orphan timeout now j =
      (beat : ℕ) × (j.status ≡ running) × (j.heartbeat_at ≡ some beat) × (beat + timeout < now)

  is_orphan_iff :
      (timeout now : ℕ) (j : TrainingJob S)
      → (is_orphan timeout now j ≡ true) ↔ Orphan timeout now j
  is_orphan_iff timeout now j = ground arith

  -- A pass fails exactly the orphaned jobs: a row whose running job has been silent for longer than the
  -- timeout is failed with its end time and the timeout message, and any other row stays as it is.
  pub reap_once-exact :
      (timeout now i : ℕ) (db : Db S) (j : TrainingJob S)
      → find i db.jobs ≡ some j
      → (Orphan timeout now j → find i (reap_once timeout now db).1.jobs ≡ some (reap_row now j))
        × ((¬ Orphan timeout now j) → find i (reap_once timeout now db).1.jobs ≡ some j)
  unfolding reap_once
  reap_once-exact timeout now i db j e =
      let moved = find-update i (is_orphan timeout now) (reap_row now) (λ x. refl) db.jobs j e in
      let kept =
        find-append i _ (insert_jobs db.next_id now (reaped timeout now db.jobs)) _ moved in
      (
        λ o. kept ∙ rw ((is_orphan_iff timeout now j).1 o),
        λ n. elim (Bool-cases (is_orphan timeout now j)) [
          | inl h ↦ absurd (n ((is_orphan_iff timeout now j).0 h))
          | inr h ↦ kept ∙ rw h
        ],
      )

  no-orphans-update :
      (timeout now : ℕ) (js : List (TrainingJob S))
      → select (is_orphan timeout now) (update (is_orphan timeout now) (reap_row now) js) ≡ []
  no-orphans-update timeout now [] = refl
  no-orphans-update timeout now (j ∷ js) = elim (Bool-cases (is_orphan timeout now j)) [
    | inl h ↦ rw h (no-orphans-update timeout now js)
    | inr h ↦ rw (h, h) (no-orphans-update timeout now js)
  ]

  no-orphans-insert :
      (timeout now id : ℕ) (specs : List S)
      → select (is_orphan timeout now) (insert_jobs id now specs) ≡ []
  no-orphans-insert timeout now id [] = refl
  no-orphans-insert timeout now id (x ∷ specs) = no-orphans-insert timeout now (suc id) specs

  reap_once_idle :
      (timeout now : ℕ) (db : Db S)
      → select (is_orphan timeout now) db.jobs ≡ []
      → reap_once timeout now db ≡ (([], []), db)
  unfolding reap_once
  reap_once_idle timeout now db h =
      rw (h, update_none (is_orphan timeout now) (reap_row now) db.jobs h, append-nil, add-zero)

  -- A second pass at the same time finds nothing: it reports no id and leaves the database alone.
  pub reap_once-twice :
      (timeout now : ℕ) (db : Db S)
      → let after = (reap_once timeout now db).1 in reap_once timeout now after ≡ (([], []), after)
  unfolding reap_once
  reap_once-twice timeout now db = reap_once_idle timeout now _ (
      select-append (is_orphan timeout now) (update (is_orphan timeout now) (reap_row now) db.jobs)
        _
      ∙ rw (no-orphans-update timeout now db.jobs)
          (no-orphans-insert timeout now db.next_id (reaped timeout now db.jobs)))
