-- ===== src/Freki/Jobs/Progress.antt =====
-- How the rows of the job table move on: each handler leaves every row where it is or advances it.
use grimnir.Base.{
  ℕ, ◌≡◌, refl, ◌∙◌, Bool, true, false, ◌&&◌, Option, some, List, [], ◌∷◌, ◌++◌, map, arith, ◌==◌,
  select, update, exists, Str, Reply, ok, http, if◌then◌else◌, not, leb, Bool-cases, inl, inr,
}
use grimnir.Freki.Auth.{require_ml_control_secret}
use grimnir.Freki.Jobs.Defs.{
  TrainingJob, JobSpec, JobControlBody, Db, held_by, token_fits, is_queued, is_live,
}
use grimnir.Freki.Jobs.Handlers.{
  finish, after_guard, control, update_returning, claim_row, heartbeat_row, complete_row, fail_row,
  cancel_row, reap_row, is_orphan, claim_job, heartbeat_job, complete_job, fail_job, cancel_job,
  reap_once, create_job, known_only, unknown_rooms, rooms_fit,
}
use grimnir.Freki.Jobs.Table.{find, find-update, find-append}

module _ {S : Type 0} where
  -- How a row may change: what has ended is final, what has left the queue stays out of it, and the
  -- specification never changes.
  pub record Advances (j k : TrainingJob S) : Type 0 where
    pub final : is_live j.status ≡ false → k ≡ j
    pub claimed : is_queued j.status ≡ false → is_queued k.status ≡ false
    pub same_id : k.id ≡ j.id
    pub same_spec : k.spec ≡ j.spec

  abbrev pub Progress : Db S → Db S → Type 0
  Progress s t =
      (i : ℕ) (j : TrainingJob S)
      → find i s.jobs ≡ some j
      → (k : TrainingJob S) × (find i t.jobs ≡ some k) × Advances j k

  Advances-refl : (j : TrainingJob S) → Advances j j
  Advances-refl j = record { final = λ _. refl; claimed = λ h. h; same_id = refl; same_spec = refl }

  Advances-trans : (j k l : TrainingJob S) → Advances j k → Advances k l → Advances j l
  Advances-trans j k l a b = record {
    final = λ h. let e : k ≡ j = a.final h in b.final (rw e h) ∙ e;
    claimed = λ h. b.claimed (a.claimed h);
    same_id = b.same_id ∙ a.same_id;
    same_spec = b.same_spec ∙ a.same_spec;
  }

  pub Progress-refl : (s : Db S) → Progress s s
  Progress-refl s i j e = (j, e, Advances-refl j)

  pub Progress-trans : (s t u : Db S) → Progress s t → Progress t u → Progress s u
  Progress-trans s t u p q i j e =
      let (k, found, a) = p i j e in
      let (l, found', b) = q i k found in (l, found', Advances-trans j k l a b)

  Progress-if :
      {A : Type 0} (b : Bool) (x y : Reply A × Db S) (s : Db S)
      → Progress s x.1
      → Progress s y.1
      → Progress s (if b then x else y).1
  Progress-if true x y s p q = p
  Progress-if false x y s p q = q

  Progress-guard :
      {A : Type 0} (g : Reply (Unit {0})) (s : Db S) (rest : Reply A × Db S)
      → Progress s rest.1
      → Progress s (after_guard g s rest).1
  Progress-guard (ok _) s rest p = p
  Progress-guard (http _) s rest p = Progress-refl s

  Progress-finish :
      (l : List (TrainingJob S)) (s t : Db S) → Progress s t → Progress s (finish l s t).1
  Progress-finish [] s t p = Progress-refl s
  Progress-finish (j ∷ []) s t p = p
  Progress-finish (j ∷ k ∷ l) s t p = Progress-refl s

  Progress-update :
      (p : TrainingJob S → Bool) (f : TrainingJob S → TrainingJob S) (s : Db S)
      → ((j : TrainingJob S) → (f j).id ≡ j.id)
      → ((j : TrainingJob S) → p j ≡ true → Advances j (f j))
      → Progress s (record s { jobs = update p f s.jobs })
  Progress-update p f s same step i j e = elim (Bool-cases (p j)) [
    | inl h ↦ (f j, found h, step j h)
    | inr h ↦ (j, kept h, Advances-refl j)
  ]
    where
      found : p j ≡ true → find i (update p f s.jobs) ≡ some (f j)
      found h = find-update i p f same s.jobs j e ∙ rw h

      kept : p j ≡ false → find i (update p f s.jobs) ≡ some j
      kept h = find-update i p f same s.jobs j e ∙ rw h

  Progress-returning :
      (p : TrainingJob S → Bool) (f : TrainingJob S → TrainingJob S) (s : Db S)
      → ((j : TrainingJob S) → (f j).id ≡ j.id)
      → ((j : TrainingJob S) → p j ≡ true → Advances j (f j))
      → Progress s (update_returning p f s).1
  unfolding update_returning
  Progress-returning p f s same step =
      Progress-finish (map f (select p s.jobs)) s _ (Progress-update p f s same step)

  Progress-insert :
      (s t : Db S) (fresh : List (TrainingJob S))
      → Progress s t
      → Progress s (record t { jobs = t.jobs ++ fresh })
  Progress-insert s t fresh p i j e =
      let (k, found, a) = p i j e in (k, find-append i t.jobs fresh k found, a)

  -- Rows that the WHERE clauses let through advance.
  claim_row-Advances :
      (d now k : ℕ) (token : Str) (j : TrainingJob S)
      → (j.id == k && is_queued j.status) ≡ true
      → Advances j (claim_row d token now j)
  claim_row-Advances d now k token j h = record {
    final = λ e. ground arith;
    claimed = λ e. refl;
    same_id = refl;
    same_spec = refl;
  }

  live-Advances :
      (j k : TrainingJob S)
      → is_live j.status ≡ true
      → is_queued k.status ≡ false
      → k.id ≡ j.id
      → k.spec ≡ j.spec
      → Advances j k
  live-Advances j k live out e f = record {
    final = λ h. ground arith;
    claimed = λ _. out;
    same_id = e;
    same_spec = f;
  }

  held-is_live :
      (k : ℕ) (body : JobControlBody) (j : TrainingJob S)
      → held_by k body j ≡ true
      → (is_live j.status ≡ true) × (is_queued j.status ≡ false)
  held-is_live k body j h = ground arith

  Progress-control :
      (secret : Str) (provided : Option Str) (body : JobControlBody) (k : ℕ)
      (f : TrainingJob S → TrainingJob S) (s : Db S)
      → ((j : TrainingJob S) → (f j).id ≡ j.id)
      → ((j : TrainingJob S) → held_by k body j ≡ true → Advances j (f j))
      → Progress s (control secret provided body k f s).1
  Progress-control secret provided body k f s same step =
      Progress-guard (require_ml_control_secret secret provided) s _ (
        Progress-if (token_fits body) _ (http 422, s) s
          (Progress-returning (held_by k body) f s same step) (Progress-refl s))

  module _ (secret : Str) (provided : Option Str) (s : Db S) where
    pub claim_job-Progress :
        (k d : ℕ) (token : Str) (now : ℕ) → Progress s (claim_job secret provided k d token now s).1
    unfolding claim_job
    claim_job-Progress k d token now =
        Progress-guard (require_ml_control_secret secret provided) s _ (
          Progress-if (exists (λ x. x == d) s.daemons) _ (http 404, s) s
            (Progress-returning _ _ s (λ j. refl) (claim_row-Advances d now k token))
            (Progress-refl s))

    pub heartbeat_job-Progress :
        (body : JobControlBody) (k now : ℕ)
        → Progress s (heartbeat_job secret provided body k now s).1
    unfolding heartbeat_job
    heartbeat_job-Progress body k now =
        Progress-control secret provided body k (heartbeat_row now) s (λ j. refl)
          (λ j h.
            live-Advances j (heartbeat_row now j) (held-is_live k body j h).0
              (held-is_live k body j h).1 refl refl)

    pub complete_job-Progress :
        (body : JobControlBody) (k now : ℕ)
        → Progress s (complete_job secret provided body k now s).1
    unfolding complete_job
    complete_job-Progress body k now =
        Progress-control secret provided body k (complete_row now) s (λ j. refl)
          (λ j h. live-Advances j (complete_row now j) (held-is_live k body j h).0 refl refl refl)

    pub fail_job-Progress :
        (body : JobControlBody) (error : Str) (k now : ℕ)
        → Progress s (fail_job secret provided body error k now s).1
    unfolding fail_job
    fail_job-Progress body error k now =
        Progress-control secret provided body k (fail_row error now) s (λ j. refl)
          (λ j h. live-Advances j (fail_row error now j) (held-is_live k body j h).0 refl refl refl)

  cancel-is_live :
      (k : ℕ) (j : TrainingJob S) → (j.id == k && is_live j.status) ≡ true → is_live j.status ≡ true
  cancel-is_live k j h = ground arith

  pub orphan-is_live :
      (timeout now : ℕ) (j : TrainingJob S)
      → is_orphan timeout now j ≡ true
      → is_live j.status ≡ true
  orphan-is_live timeout now j h = ground arith

  pub cancel_job-Progress : (s : Db S) (k now : ℕ) → Progress s (cancel_job k now s).1
  unfolding cancel_job
  cancel_job-Progress s k now =
      Progress-returning _ (cancel_row now) s (λ j. refl)
        (λ j h. live-Advances j (cancel_row now j) (cancel-is_live k j h) refl refl refl)

  pub reap_once-Progress : (s : Db S) (timeout now : ℕ) → Progress s (reap_once timeout now s).1
  unfolding reap_once
  reap_once-Progress s timeout now =
      Progress-insert s (record s { jobs = update (is_orphan timeout now) (reap_row now) s.jobs }) _
        (Progress-update (is_orphan timeout now) (reap_row now) s (λ j. refl)
          (λ j h. live-Advances j (reap_row now j) (orphan-is_live timeout now j h) refl refl refl))

module _ {H F : Type 0} where
  Progress-known_only :
      (l : List Str) (done : Reply (TrainingJob (JobSpec H F)) × Db (JobSpec H F))
      (s : Db (JobSpec H F))
      → Progress s done.1
      → Progress s (known_only l done s).1
  Progress-known_only [] done s p = p
  Progress-known_only (_ ∷ _) done s p = Progress-refl s

  pub create_job-Progress :
      (spec : JobSpec H F) (now : ℕ) (s : Db (JobSpec H F)) → Progress s (create_job spec now s).1
  unfolding create_job
  create_job-Progress spec now s =
      Progress-if (not (rooms_fit spec)) (http 422, s) _ s (Progress-refl s)
        (Progress-if (leb spec.time_end spec.time_start) (http 422, s) _ s (Progress-refl s)
          (Progress-known_only (unknown_rooms s.rooms spec.rooms) _ s
            (Progress-insert s s _ (Progress-refl s))))
