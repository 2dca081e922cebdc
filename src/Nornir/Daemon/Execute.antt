-- ===== src/Nornir/Daemon/Execute.antt =====
-- `_execute_job` of nornir/src/nornir/main.py against Freki's tables: what becomes of the job.
use grimnir.Base.{
  ℕ, zero, suc, ◌≡◌, refl, ◌⊎◌, inl, inr, Str, codes, Bool-cases, Reply, ok, http, subst, exists,
  ◌==◌,
}
use grimnir.Freki.Jobs
use grimnir.Freki.Jobs.{TrainingJob, JobControlBody}
use grimnir.Freki.Jobs.Replies.{Holds}
use grimnir.Freki.Jobs.Reports.{Passes}
use grimnir.Freki.Models.{Registry}
use grimnir.Nornir.Client.{
  sent, on_db, ClaimedJob, Outcome, done, request, unread, success, respond, FrekiClient,
  heartbeat_job, Backend, Fate, delivered, request_lost, response_lost, Setting, freki,
}
use grimnir.Nornir.Daemon.Defs.{
  Ended, returned, escaped, caught, Metrics, Ticks, after_report, periodic_job_heartbeat, report,
}
use grimnir.Nornir.Daemon.Calls.{
  Quiet, State, Kept, Beats, Beats-Holds, periodic_job_heartbeat-State, Case,
}

answered-returned :
    {A W : Type 0} (path : Str) (text : ℕ → Str) (r : Reply A) (w : W)
    → (caught (unread (request (codes "POST") path success (respond text 200 r, w)))).0 ≡ returned
answered-returned path text (ok a) w = refl
answered-returned path text (http c) w = elim (Bool-cases (exists (λ s. s == c) success)) [
  | inl t ↦ rw t refl
  | inr f ↦ rw f refl
]

module _ {S J : Type 0} (setting : Setting S J) (k : ℕ) (str_int : ℕ → Str) (client : FrekiClient)
    (daemon_id : ℕ) (token : Str) (spec : S) where
  -- The claimed job.
  abbrev job : ClaimedJob S
  job = record { id = k; spec = spec; claim_token = token }

  abbrev pub body : JobControlBody
  body = record { daemon_id = daemon_id; claim_token = token }

  sent-returned :
      {A : Type 0} (path : Str) (f : Fate) (w : Backend S J) (x : Reply A × Jobs.Db S)
      → f ≡ delivered
      → (caught (
          unread
            (request (codes "POST") path success (sent setting f w (on_db setting 200 w x))))).0
        ≡ returned
  sent-returned path delivered w x e = answered-returned path setting.text x.0 _
  sent-returned path request_lost w x e = absurd (cc e)
  sent-returned path response_lost w x e = absurd (cc e)

  -- With every message delivered, the heartbeat task runs on.
  pub periodic_job_heartbeat-returned :
      ((n : ℕ) → setting.fate n ≡ delivered)
      → (n : ℕ) (task : Ended × Backend S J) → task.0 ≡ returned
      → (periodic_job_heartbeat (freki setting) str_int client daemon_id job n task).0 ≡ returned
  unfolding periodic_job_heartbeat heartbeat_job
  periodic_job_heartbeat-returned all zero task e = e
  periodic_job_heartbeat-returned all (suc n) (escaped, w) e = absurd (cc e)
  periodic_job_heartbeat-returned all (suc n) (returned, w) e =
      periodic_job_heartbeat-returned all n _
        (sent-returned _ (setting.fate w.served) (setting.others w.served w) _ (all w.served))

  module _ (q : Quiet setting k)
      (p : Passes setting.ml_secret client.ml_control_shared_secret body) where
    pub beats-State :
        (P : TrainingJob S → Type 0) (X : Registry J → Type 0)
        → Beats setting k q str_int client daemon_id token p P
        → Kept setting X
        → (n : ℕ) (task : Ended × Backend S J) → State setting k P X task.1
        → State setting k P X
            (periodic_job_heartbeat (freki setting) str_int client daemon_id job n task).1
    beats-State P X beats kept =
        periodic_job_heartbeat-State setting k q str_int client daemon_id token p P X beats kept
          spec

    -- How a report of a held job ends: with the row as `After` says and the counters of a success, or
    -- with an exception, the counters of one, and the row either way.
    abbrev Reported :
        (TrainingJob S → Type 0)
        → (Registry J → Type 0)
        → Metrics
        → Metrics
        → Ended × Metrics × Backend S J
        → Type 0
    Reported After X good lost (e, m, w) =
        ((m ≡ good) × State setting k After X w)
        ⊎ ((m ≡ lost) × (State setting k After X w ⊎ State setting k (Holds body) X w))

    module _ (X : Registry J → Type 0) (kept : Kept setting X) (After : TrainingJob S → Type 0)
        (beats : Beats setting k q str_int client daemon_id token p After) (ticks : Ticks)
        (good bad lost : Metrics) where
      -- The rest of a report, after its request.
      after_report-Reported :
          (f : Fate) (task : Ended) (x : Outcome (Unit {0}) × Backend S J)
          → Case setting k q str_int client daemon_id token p X kept f After x
          → Reported After X good lost (
              after_report good bad lost
                (periodic_job_heartbeat
                  (freki setting)
                  str_int
                  client
                  daemon_id
                  job
                  ticks.joining
                  (task, x.1))
                x.0)
      after_report-Reported delivered task (o, w) (e, h) =
          rw e (inl (refl, beats-State After X beats kept ticks.joining (task, w) h))
      after_report-Reported request_lost task (o, w) (e, h) = rw e (
          inr (
            refl,
            inr (
                beats-State (Holds body) X
                  (Beats-Holds setting k q str_int client daemon_id token p) kept ticks.joining
                  (task, w) h),
          ))
      after_report-Reported response_lost task (o, w) (e, h) =
          rw e (inr (refl, inl (beats-State After X beats kept ticks.joining (task, w) h)))

      after_report-delivered :
          (task : Ended × Backend S J) (o : Outcome (Unit {0}))
          → task.0 ≡ returned
          → o ≡ done tt
          → after_report good bad lost task o ≡ (returned, good, task.1)
      after_report-delivered (task, w) o e e' = rw (e, e') refl

      module _ (call : Backend S J → Outcome (Unit {0}) × Backend S J)
          (ends : (w : Backend S J)
            → State setting k (Holds body) X w
            → Case setting k q str_int client daemon_id token p X kept
                (setting.fate w.served)
                After
                (call w)) where
        abbrev first_beats : Ended × Backend S J → Ended × Backend S J
        first_beats =
            periodic_job_heartbeat (freki setting) str_int client daemon_id job ticks.reporting

        first_beats-State :
            (task : Ended × Backend S J)
            → State setting k (Holds body) X task.1
            → State setting k (Holds body) X (first_beats task).1
        first_beats-State =
            beats-State (Holds body) X (Beats-Holds setting k q str_int client daemon_id token p)
              kept ticks.reporting

        pub report-Reported :
            (task : Ended × Backend S J)
            → State setting k (Holds body) X task.1
            → Reported After X good lost
                (report (freki setting) str_int client daemon_id job ticks call good bad lost task)
        unfolding report
        report-Reported task h =
            let (task', w) = first_beats task in
            after_report-Reported (setting.fate w.served) task' (call w)
              (ends w (first_beats-State task h))

        -- With every message delivered the report succeeds.
        pub report-delivered :
            ((n : ℕ) → setting.fate n ≡ delivered)
            → (task : Ended × Backend S J) → task.0 ≡ returned
            → State setting k (Holds body) X task.1
            → let (e, m, w) =
                report (freki setting) str_int client daemon_id job ticks call good bad lost task in
              (e ≡ returned) × (m ≡ good) × State setting k After X w
        unfolding report
        report-delivered all task e h =
            let (task', w) = first_beats task in
            let on = periodic_job_heartbeat-returned all ticks.reporting task e in
            let (o, after) =
              subst (λ f. Case setting k q str_int client daemon_id token p X kept f After (call w))
                (all w.served) (ends w (first_beats-State task h)) in
            let last =
              periodic_job_heartbeat (freki setting) str_int client daemon_id job ticks.joining
                (task', (call w).1) in
            let ended =
              after_report-delivered last (call w).0
                (periodic_job_heartbeat-returned all ticks.joining (task', (call w).1) on) o in
            rw ended
              (refl, refl, beats-State After X beats kept ticks.joining (task', (call w).1) after)
