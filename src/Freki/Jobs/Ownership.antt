-- ===== src/Freki/Jobs/Ownership.antt =====
-- Who may move a job: a claim takes a queued job for a known daemon, once, and only the holder of the
-- claim's token can report on it afterwards.
use grimnir.Base.{
  ℕ, ◌≤◌, ◌≡◌, refl, Bool, true, false, ◌&&◌, Option, some, List, arith, ◌==◌, exists, length, Str,
  ok, http, if◌then◌else◌, ◌↔◌,
}
use mathlib.Core.List.{Mem}
use grimnir.Freki.Jobs.Replies.{update_returning-stored}
use grimnir.Freki.Jobs.Invariant.{claim_job-IsValid}
use grimnir.Base.{==_iff, exists-mem_iff}
use grimnir.Freki.Auth.{require_ml_control_secret}
use grimnir.Freki.Jobs.Defs.{
  JobStatus, queued, TrainingJob, JobSpec, JobControlBody, Db, held_by, token_fits, is_queued,
  is_running, eq_nat, eq_str,
}
use grimnir.Freki.Jobs.Handlers.{
  control, update_returning, claim_row, heartbeat_row, complete_row, fail_row, claim_job,
  heartbeat_job, complete_job, fail_job,
}
use grimnir.Freki.Jobs.Table.{find, find-id}
use grimnir.Freki.Jobs.Invariant.{IsValid}
use grimnir.Freki.Jobs.Replies.{
  Holds, held_by_iff, update_returning-ok_iff, guard-ok_iff, test-ok_iff,
}
use grimnir.Freki.Jobs.Lifecycle.{Reach, Reach-IsValid, Reach-Progress}

token_fits_iff :
    (body : JobControlBody)
    → (token_fits body ≡ true) ↔ ((16 ≤ length body.claim_token) × (length body.claim_token ≤ 255))
token_fits_iff body = ground arith

exists-eq_iff : (d : ℕ) (ds : List ℕ) → (exists (λ x. x == d) ds ≡ true) ↔ Mem d ds
exists-eq_iff d = exists-mem_iff d (λ x. x == d) (λ x. ==_iff x d)

and_intro : (a b : Bool) → a ≡ true → b ≡ true → (a && b) ≡ true
and_intro a b h k = ground arith

and_right : (a b : Bool) → (a && b) ≡ true → b ≡ true
and_right a b h = ground arith

is_queued_iff : (s : JobStatus) → (is_queued s ≡ true) ↔ (s ≡ queued)
is_queued_iff s = ground arith

module _ {S : Type 0} where
  -- What a report on job `k` must meet: the shared secret, a token of a length that the body allows,
  -- and a row that is running for that daemon under that token.
  abbrev pub Entitled : Str → Option Str → JobControlBody → ℕ → Db S → TrainingJob S → Type 0
  Entitled secret provided body k db j =
      (require_ml_control_secret secret provided ≡ ok tt)
      × (16 ≤ length body.claim_token)
      × (length body.claim_token ≤ 255)
      × (find k db.jobs ≡ some j)
      × Holds body j

  pub control-ok_iff :
      (secret : Str) (provided : Option Str) (body : JobControlBody) (k : ℕ)
      (f : TrainingJob S → TrainingJob S) (db : Db S) (r : TrainingJob S)
      → IsValid db
      → ((control secret provided body k f db).0 ≡ ok r)
        ↔ ((j : TrainingJob S) × Entitled secret provided body k db j × (r ≡ f j))
  control-ok_iff secret provided body k f db r v =
      let call = update_returning (held_by k body) f db in
      let checked = if token_fits body then call else (http 422, db) in
      let guarded = guard-ok_iff (require_ml_control_secret secret provided) db checked r in
      let tested = test-ok_iff (token_fits body) call 422 db r in
      let row =
        update_returning-ok_iff k
          (λ j.
            is_running j.status
            && (eq_nat j.daemon_id body.daemon_id && eq_str j.claim_token body.claim_token))
          f db r v in
      (
        λ h.
            let (g, c) = guarded.0 h in
            let (fits, done) = tested.0 c in
            let (j, found, passed, e) = row.0 done in
            let lens = (token_fits_iff body).0 fits in
            let same = find-id k db.jobs j found in
            (
              j,
              (
                g,
                lens.0,
                lens.1,
                found,
                (held_by_iff k body j same).0
                    (and_intro (j.id == k) _ ((==_iff _ _).1 same) passed),
              ),
              e,
            ),
        λ (j, (g, low, high, found, holds), e).
            let same = find-id k db.jobs j found in
            guarded.1 (
              g,
              tested.1 (
                (token_fits_iff body).1 (low, high),
                row.1 (j, found, and_right (j.id == k) _ ((held_by_iff k body j same).1 holds), e),
              ),
            ),
      )

  -- While a job is running, only calls that show the shared secret and name its daemon and its claim
  -- token can report on it, and such a call succeeds: heartbeat, complete and fail each answer with a
  -- row exactly if they are so entitled, and the row is the old one with its columns set.
  pub reports-ok_iff :
      (secret : Str) (provided : Option Str) (body : JobControlBody) (error : Str) (k now : ℕ)
      (db : Db S) (r : TrainingJob S)
      → IsValid db
      → (((heartbeat_job secret provided body k now db).0 ≡ ok r) ↔ (
          (j : TrainingJob S) × Entitled secret provided body k db j × (r ≡ heartbeat_row now j)))
        × (((complete_job secret provided body k now db).0 ≡ ok r) ↔ (
            (j : TrainingJob S) × Entitled secret provided body k db j × (r ≡ complete_row now j)))
        × (((fail_job secret provided body error k now db).0 ≡ ok r) ↔ (
            (j : TrainingJob S) × Entitled secret provided body k db j
            × (r ≡ fail_row error now j)))
  unfolding heartbeat_job complete_job fail_job
  reports-ok_iff secret provided body error k now db r v = (
    control-ok_iff secret provided body k (heartbeat_row now) db r v,
    control-ok_iff secret provided body k (complete_row now) db r v,
    control-ok_iff secret provided body k (fail_row error now) db r v,
  )

  -- A claim succeeds exactly if the shared secret is shown, the daemon is registered, and the job is
  -- there and queued; the answer is that row, running, with the daemon, the token and the time set.
  pub claim_job-ok_iff :
      (secret : Str) (provided : Option Str) (k d : ℕ) (token : Str) (now : ℕ) (db : Db S)
      (r : TrainingJob S)
      → IsValid db
      → ((claim_job secret provided k d token now db).0 ≡ ok r) ↔ (
          (j : TrainingJob S) × (require_ml_control_secret secret provided ≡ ok tt)
          × Mem d db.daemons
          × (find k db.jobs ≡ some j)
          × (j.status ≡ queued)
          × (r ≡ claim_row d token now j))
  unfolding claim_job
  claim_job-ok_iff secret provided k d token now db r v =
      let call =
        update_returning (λ j. j.id == k && is_queued j.status) (claim_row d token now) db in
      let checked = if exists (λ x. x == d) db.daemons then call else (http 404, db) in
      let guarded = guard-ok_iff (require_ml_control_secret secret provided) db checked r in
      let tested = test-ok_iff (exists (λ x. x == d) db.daemons) call 404 db r in
      let row =
        update_returning-ok_iff k (λ j. is_queued j.status) (claim_row d token now) db r v in
      (
        λ h.
            let (g, c) = guarded.0 h in
            let (known, done) = tested.0 c in
            let (j, found, passed, e) = row.0 done in
            (
              j,
              g,
              (exists-eq_iff d db.daemons).0 known,
              found,
              (is_queued_iff j.status).0 passed,
              e,
            ),
        λ (j, g, known, found, waiting, e). guarded.1 (
          g,
          tested.1 (
            (exists-eq_iff d db.daemons).1 known,
            row.1 (j, found, (is_queued_iff j.status).1 waiting, e),
          ),
        ),
      )

  -- A successful claim leaves the row that it answers with in the table.
  pub claim_job-stored :
      (secret : Str) (provided : Option Str) (k d : ℕ) (token : Str) (now : ℕ) (db : Db S)
      (r : TrainingJob S)
      → IsValid db
      → (claim_job secret provided k d token now db).0 ≡ ok r
      → find k (claim_job secret provided k d token now db).1.jobs ≡ some r
  unfolding claim_job
  claim_job-stored secret provided k d token now db r v h =
      let call =
        update_returning (λ j. j.id == k && is_queued j.status) (claim_row d token now) db in
      let checked = if exists (λ x. x == d) db.daemons then call else (http 404, db) in
      let (g, c) = (guard-ok_iff (require_ml_control_secret secret provided) db checked r).0 h in
      let (known, done) = (test-ok_iff (exists (λ x. x == d) db.daemons) call 404 db r).0 c in
      rw (g, known)
        (update_returning-stored k (λ j. is_queued j.status) (claim_row d token now) db r
          (λ j. refl) v done)

module _ {H F : Type 0} where
  -- Two claims of one job never both succeed: after a successful claim, and whatever requests and
  -- reaper passes come between, no later claim of the same id is answered with a row.
  pub claim_job-exclusive :
      (secret secret' : Str) (provided provided' : Option Str) (k d d' : ℕ) (token token' : Str)
      (now now' : ℕ) (s t : Db (JobSpec H F)) (r r' : TrainingJob (JobSpec H F))
      → IsValid s
      → (claim_job secret provided k d token now s).0 ≡ ok r
      → Reach (claim_job secret provided k d token now s).1 t
      → ¬ ((claim_job secret' provided' k d' token' now' t).0 ≡ ok r')
  claim_job-exclusive secret secret' provided provided' k d d' token token' now now' s t r r' v h
        run h' =
      let after = (claim_job secret provided k d token now s).1 in
      let (j, _, _, _, _, e) = (claim_job-ok_iff secret provided k d token now s r v).0 h in
      let stored = claim_job-stored secret provided k d token now s r v h in
      let valid = claim_job-IsValid secret provided s v k d token now in
      let (j', _, _, found', waiting, _) =
        (claim_job-ok_iff secret' provided' k d' token' now' t r' (Reach-IsValid valid run)).0 h' in
      let (l, found, a) = Reach-Progress run k r stored in
      let out : is_queued r.status ≡ false = rw e in
      let same : l ≡ j' = cc in
      let claimed : is_queued j'.status ≡ false = rw same at (a.claimed out) in cc
