-- ===== src/Freki/Jobs/Create.antt =====
-- When a new training job is accepted (`create_job`).
use mathlib.Core.List.{Mem}
use grimnir.Base.{
  ℕ, ◌+◌, ◌≤◌, ◌<◌, ◌≡◌, refl, ap, sym, ◌↔◌, Bool, true, false, not, List, [], ◌∷◌, ◌++◌, arith,
  All, leb, exists, exists-mem_iff, length, Str, str_eq, str_eq_iff, Reply, ok, http, if◌then◌else◌,
  Bool-cases, inl, inr,
}
use grimnir.Freki.Jobs.Defs.{TrainingJob, JobSpec, Db}
use grimnir.Freki.Jobs.Handlers.{create_job, new_job, known_only, unknown_rooms, rooms_fit}

known_room : (known : List Str) (r : Str) → (exists (str_eq r) known ≡ true) ↔ Mem r known
known_room known r =
    exists-mem_iff r (str_eq r)
      (λ x. (λ h. sym ((str_eq_iff r x).0 h), λ e. (str_eq_iff r x).1 (sym e))) known

-- No room is reported as unknown exactly if each one is in the table.
unknown_rooms-nil_iff :
    (known rooms : List Str) → (unknown_rooms known rooms ≡ []) ↔ All (λ r. Mem r known) rooms
unknown_rooms-nil_iff known [] = (λ _. tt, λ _. refl)
unknown_rooms-nil_iff known (r ∷ rooms) = elim (Bool-cases (exists (str_eq r) known)) [
  | inl h ↦ rw h (
    λ e. ((known_room known r).0 h, (unknown_rooms-nil_iff known rooms).0 e),
    λ (_, t). (unknown_rooms-nil_iff known rooms).1 t,
  )
  | inr h ↦ rw h (λ e. absurd (cc e), λ (m, _). absurd (clash ((known_room known r).1 m) h))
]
  where
    clash : exists (str_eq r) known ≡ true → exists (str_eq r) known ≡ false → ⊥
    clash t f = cc

-- A test that refuses must fail for the rest to decide.
refused_iff :
    {A B : Type 0} (b : Bool) (code : ℕ) (db : B) (x : Reply A × B) (r : A) (db' : B)
    → ((if b then (http code, db) else x) ≡ (ok r, db')) ↔ ((b ≡ false) × (x ≡ (ok r, db')))
refused_iff true code db x r db' = (λ h. absurd (cc (ap (λ y. y.0) h)), λ h. absurd (cc h.0))
refused_iff false code db x r db' = (λ h. (refl, h), λ h. h.1)

module _ {H F : Type 0} where
  known_only_iff :
      (l : List Str) (x : Reply (TrainingJob (JobSpec H F)) × Db (JobSpec H F))
      (db : Db (JobSpec H F)) (r : TrainingJob (JobSpec H F)) (db' : Db (JobSpec H F))
      → (known_only l x db ≡ (ok r, db')) ↔ ((l ≡ []) × (x ≡ (ok r, db')))
  known_only_iff [] x db r db' = (λ h. (refl, h), λ h. h.1)
  known_only_iff (_ ∷ _) x db r db' = (λ h. absurd (cc (ap (λ y. y.0) h)), λ h. absurd (cc h.0))

  rooms_fit_iff :
      (spec : JobSpec H F)
      → (not (rooms_fit spec) ≡ false) ↔ ((1 ≤ length spec.rooms) × (length spec.rooms ≤ 32))
  rooms_fit_iff spec = ground arith

  window_iff :
      (spec : JobSpec H F)
      → (leb spec.time_end spec.time_start ≡ false) ↔ (spec.time_start < spec.time_end)
  window_iff spec = ground arith

  -- A job is accepted exactly if it names 1 to 32 rooms, all of them known, and its time window is not
  -- empty. It is then queued under the next id, at the end of the table, and owned by nobody.
  pub create_job-ok_iff :
      (spec : JobSpec H F) (now : ℕ) (db : Db (JobSpec H F)) (r : TrainingJob (JobSpec H F))
      (db' : Db (JobSpec H F))
      → (create_job spec now db ≡ (ok r, db')) ↔ (
          (1 ≤ length spec.rooms)
          × (length spec.rooms ≤ 32)
          × (spec.time_start < spec.time_end)
          × All (λ x. Mem x db.rooms) spec.rooms
          × (r ≡ new_job db.next_id now spec)
          × (db' ≡ record db {
            jobs = db.jobs ++ (new_job db.next_id now spec ∷ []);
            next_id = db.next_id + 1;
          }))
  unfolding create_job
  create_job-ok_iff spec now db r db' =
      let grown : Db (JobSpec H F) = record db {
        jobs = db.jobs ++ (new_job db.next_id now spec ∷ []);
        next_id = db.next_id + 1;
      } in
      let made : Reply (TrainingJob (JobSpec H F)) × Db (JobSpec H F) =
        (ok (new_job db.next_id now spec), grown) in
      let checked = known_only (unknown_rooms db.rooms spec.rooms) made db in
      let windowed = if leb spec.time_end spec.time_start then (http 422, db) else checked in
      let fit = refused_iff (not (rooms_fit spec)) 422 db windowed r db' in
      let window = refused_iff (leb spec.time_end spec.time_start) 422 db checked r db' in
      let known = known_only_iff (unknown_rooms db.rooms spec.rooms) made db r db' in
      (
        λ h.
            let (fits, w) = fit.0 h in
            let (open_window, c) = window.0 w in
            let (none_unknown, e) = known.0 c in
            let sizes = (rooms_fit_iff spec).0 fits in
            (
              sizes.0,
              sizes.1,
              (window_iff spec).0 open_window,
              (unknown_rooms-nil_iff db.rooms spec.rooms).0 none_unknown,
              cc (ap (λ y. y.0) e),
              sym (ap (λ y. y.1) e),
            ),
        λ (low, high, window_open, all_known, e, e'). fit.1 (
          (rooms_fit_iff spec).1 (low, high),
          window.1 (
            (window_iff spec).1 window_open,
            known.1 ((unknown_rooms-nil_iff db.rooms spec.rooms).1 all_known, rw (e, e')),
          ),
        ),
      )
