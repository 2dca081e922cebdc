-- ===== src/Freki/Jobs/Reports.antt =====
-- The table after a report that is entitled, and after one on a job that has ended.
use grimnir.Base.{
  ℕ, ◌≤◌, ◌≡◌, refl, ap, ◌∙◌, false, Option, some, Str, length, ok, http, ◌&&◌, if◌then◌else◌,
}
use grimnir.Freki.Auth.{require_ml_control_secret}
use grimnir.Freki.Jobs.Defs.{
  TrainingJob, JobControlBody, Db, held_by, token_fits, is_running, eq_nat, eq_str, is_live,
}
use grimnir.Freki.Jobs.Handlers.{
  control, update_returning, heartbeat_row, complete_row, fail_row, heartbeat_job, complete_job,
  fail_job,
}
use grimnir.Freki.Jobs.Table.{find}
use grimnir.Freki.Jobs.Invariant.{
  IsValid, heartbeat_job-IsValid, complete_job-IsValid, fail_job-IsValid,
}
use grimnir.Freki.Jobs.Progress.{heartbeat_job-Progress}
use grimnir.Freki.Jobs.Replies.{Holds, update_returning-stored, guard-ok_iff, test-ok_iff}
use grimnir.Freki.Jobs.Ownership.{control-ok_iff}

-- What the daemon shows of itself with a report: the secret, and a token of the right length.
pub record Passes (secret : Str) (provided : Option Str) (body : JobControlBody) : Type 0 where
  pub shown : require_ml_control_secret secret provided ≡ ok tt
  pub long : 16 ≤ length body.claim_token
  pub short : length body.claim_token ≤ 255

module _ {S : Type 0} where
  -- The table is well formed and its row under the id is as `P` says.
  pub record Row (k : ℕ) (P : TrainingJob S → Type 0) (db : Db S) : Type 0 where
    pub valid : IsValid db
    pub row : TrainingJob S
    pub found : find k db.jobs ≡ some row
    pub state : P row

  control-stored :
      (secret : Str) (provided : Option Str) (body : JobControlBody) (k : ℕ)
      (f : TrainingJob S → TrainingJob S) (db : Db S) (r : TrainingJob S)
      → ((j : TrainingJob S) → (f j).id ≡ j.id)
      → IsValid db
      → (control secret provided body k f db).0 ≡ ok r
      → find k (control secret provided body k f db).1.jobs ≡ some r
  control-stored secret provided body k f db r same v h =
      let call = update_returning (held_by k body) f db in
      let checked = if token_fits body then call else (http 422, db) in
      let (g, c) = (guard-ok_iff (require_ml_control_secret secret provided) db checked r).0 h in
      let (fits, done) = (test-ok_iff (token_fits body) call 422 db r).0 c in
      rw (g, fits)
        (update_returning-stored k
          (λ j.
            is_running j.status
            && (eq_nat j.daemon_id body.daemon_id && eq_str j.claim_token body.claim_token))
          f db r same v done)

  control-applied :
      (secret : Str) (provided : Option Str) (body : JobControlBody) (k : ℕ)
      (f : TrainingJob S → TrainingJob S) (db : Db S)
      → ((j : TrainingJob S) → (f j).id ≡ j.id)
      → Passes secret provided body
      → IsValid db
      → (j : TrainingJob S) → find k db.jobs ≡ some j
      → Holds body j
      → ((control secret provided body k f db).0 ≡ ok (f j))
        × (find k (control secret provided body k f db).1.jobs ≡ some (f j))
  control-applied secret provided body k f db same p v j found holds =
      let answered =
        (control-ok_iff secret provided body k f db (f j) v).1
          (j, (p.shown, p.long, p.short, found, holds), refl) in
      (answered, control-stored secret provided body k f db (f j) same v answered)

  module _ (secret : Str) (provided : Option Str) (body : JobControlBody) (k now : ℕ) (db : Db S)
      (p : Passes secret provided body) (h : Row k (Holds body) db) where
    -- A heartbeat of the holder leaves it the holder.
    pub heartbeat_job-Row : Row k (Holds body) (heartbeat_job secret provided body k now db).1
    unfolding heartbeat_job
    heartbeat_job-Row =
        let (_, stored) =
          control-applied secret provided body k (heartbeat_row now) db (λ j. refl) p h.valid h.row
            h.found h.state in
        record {
          valid = heartbeat_job-IsValid secret provided db h.valid body k now;
          row = heartbeat_row now h.row;
          found = stored;
          state = record { is_on = h.state.is_on; owner = h.state.owner; token = h.state.token };
        }

    pub complete_job-Row :
        ((complete_job secret provided body k now db).0 ≡ ok (complete_row now h.row))
        × Row k (λ r. r ≡ complete_row now h.row) (complete_job secret provided body k now db).1
    unfolding complete_job
    complete_job-Row =
        let (answered, stored) =
          control-applied secret provided body k (complete_row now) db (λ j. refl) p h.valid h.row
            h.found h.state in
        (
          answered,
          record {
            valid = complete_job-IsValid secret provided db h.valid body k now;
            row = complete_row now h.row;
            found = stored;
            state = refl;
          },
        )

    pub fail_job-Row :
        (error : Str)
        → ((fail_job secret provided body error k now db).0 ≡ ok (fail_row error now h.row))
          × Row k
              (λ r. r ≡ fail_row error now h.row)
              (fail_job secret provided body error k now db).1
    unfolding fail_job
    fail_job-Row error =
        let (answered, stored) =
          control-applied secret provided body k (fail_row error now) db (λ j. refl) p h.valid h.row
            h.found h.state in
        (
          answered,
          record {
            valid = fail_job-IsValid secret provided db h.valid body error k now;
            row = fail_row error now h.row;
            found = stored;
            state = refl;
          },
        )

  -- A late heartbeat leaves a job that has ended as it is.
  pub heartbeat_job-ended :
      (secret : Str) (provided : Option Str) (body : JobControlBody) (k now : ℕ) (db : Db S)
      (P : TrainingJob S → Type 0)
      → ((r : TrainingJob S) → P r → is_live r.status ≡ false)
      → Row k P db
      → Row k P (heartbeat_job secret provided body k now db).1
  heartbeat_job-ended secret provided body k now db P over h =
      let (l, found, a) = heartbeat_job-Progress secret provided db body k now k h.row h.found in
      record {
        valid = heartbeat_job-IsValid secret provided db h.valid body k now;
        row = h.row;
        found = found ∙ ap some (a.final (over h.row h.state));
        state = h.state;
      }
