-- ===== src/Freki/Jobs/Lifecycle.antt =====
-- The life of a job under any sequence of requests and reaper passes: a step relation over the
-- handlers, and what no run of it can undo.
use grimnir.Base.{ℕ, ◌≡◌, ap, ◌∙◌, false, Option, some, Str}
use grimnir.Freki.Jobs.Defs.{TrainingJob, JobSpec, JobControlBody, Db, is_live}
use grimnir.Freki.Jobs.Handlers.{
  claim_job, heartbeat_job, complete_job, fail_job, cancel_job, reap_once, create_job,
}
use grimnir.Freki.Jobs.Table.{find}
use grimnir.Freki.Jobs.Invariant.{
  IsValid, claim_job-IsValid, heartbeat_job-IsValid, complete_job-IsValid, fail_job-IsValid,
  cancel_job-IsValid, reap_once-IsValid, create_job-IsValid,
}
use grimnir.Freki.Jobs.Progress.{
  Progress, Progress-refl, Progress-trans, claim_job-Progress, heartbeat_job-Progress,
  complete_job-Progress, fail_job-Progress, cancel_job-Progress, reap_once-Progress,
  create_job-Progress,
}

-- One request or one pass of the reaper, with any arguments, answered or refused.
pub data Step {H F : Type 0} (s : Db (JobSpec H F)) : Db (JobSpec H F) → Type 0 where
  create : (spec : JobSpec H F) (now : ℕ) → Step s (create_job spec now s).1
  claim :
      (secret : Str) (provided : Option Str) (k d : ℕ) (token : Str) (now : ℕ)
      → Step s (claim_job secret provided k d token now s).1
  heartbeat :
      (secret : Str) (provided : Option Str) (body : JobControlBody) (k now : ℕ)
      → Step s (heartbeat_job secret provided body k now s).1
  finish_ok :
      (secret : Str) (provided : Option Str) (body : JobControlBody) (k now : ℕ)
      → Step s (complete_job secret provided body k now s).1
  finish_bad :
      (secret : Str) (provided : Option Str) (body : JobControlBody) (error : Str) (k now : ℕ)
      → Step s (fail_job secret provided body error k now s).1
  cancel : (k now : ℕ) → Step s (cancel_job k now s).1
  reap : (timeout now : ℕ) → Step s (reap_once timeout now s).1

pub data Reach {H F : Type 0} (s : Db (JobSpec H F)) : Db (JobSpec H F) → Type 0 where
  here : Reach s s
  next : {t u : Db (JobSpec H F)} → Reach s t → Step t u → Reach s u

module _ {H F : Type 0} where
  Step-IsValid : {s t : Db (JobSpec H F)} → Step s t → IsValid s → IsValid t
  Step-IsValid {s} (create spec now) v = create_job-IsValid spec now s v
  Step-IsValid {s} (claim secret provided k d token now) v =
      claim_job-IsValid secret provided s v k d token now
  Step-IsValid {s} (heartbeat secret provided body k now) v =
      heartbeat_job-IsValid secret provided s v body k now
  Step-IsValid {s} (finish_ok secret provided body k now) v =
      complete_job-IsValid secret provided s v body k now
  Step-IsValid {s} (finish_bad secret provided body error k now) v =
      fail_job-IsValid secret provided s v body error k now
  Step-IsValid {s} (cancel k now) v = cancel_job-IsValid s v k now
  Step-IsValid {s} (reap timeout now) v = reap_once-IsValid s v timeout now

  Step-Progress : {s t : Db (JobSpec H F)} → Step s t → Progress s t
  Step-Progress {s} (create spec now) = create_job-Progress spec now s
  Step-Progress {s} (claim secret provided k d token now) =
      claim_job-Progress secret provided s k d token now
  Step-Progress {s} (heartbeat secret provided body k now) =
      heartbeat_job-Progress secret provided s body k now
  Step-Progress {s} (finish_ok secret provided body k now) =
      complete_job-Progress secret provided s body k now
  Step-Progress {s} (finish_bad secret provided body error k now) =
      fail_job-Progress secret provided s body error k now
  Step-Progress {s} (cancel k now) = cancel_job-Progress s k now
  Step-Progress {s} (reap timeout now) = reap_once-Progress s timeout now

  -- Every table that requests and reaper passes lead to from a well-formed one is well formed: ids
  -- are unique, and the owner, token and time columns of each row agree with its status.
  pub Reach-IsValid : {s t : Db (JobSpec H F)} → IsValid s → Reach s t → IsValid t
  Reach-IsValid v here = v
  Reach-IsValid v (next r st) = Step-IsValid st (Reach-IsValid v r)

  pub Reach-Progress : {s t : Db (JobSpec H F)} → Reach s t → Progress s t
  Reach-Progress {s} here = Progress-refl s
  Reach-Progress {s} (next {t = t} {u = u} r st) =
      Progress-trans s t u (Reach-Progress r) (Step-Progress st)

  -- A job that is failed, complete or cancelled stays as it is, column by column, whatever requests
  -- and reaper passes follow.
  pub Reach-ended :
      {s t : Db (JobSpec H F)} (i : ℕ) (j : TrainingJob (JobSpec H F))
      → Reach s t
      → find i s.jobs ≡ some j
      → is_live j.status ≡ false
      → find i t.jobs ≡ some j
  Reach-ended i j r e ended =
      let (k, found, a) = Reach-Progress r i j e in found ∙ ap some (a.final ended)
