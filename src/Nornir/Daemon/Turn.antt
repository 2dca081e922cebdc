-- ===== src/Nornir/Daemon/Turn.antt =====
-- One turn of the daemon, `_claim_and_run` of nornir/src/nornir/main.py, against Freki's queue.
use mathlib.Core.List.{Mem}
use grimnir.Base.{
  ℕ, suc, ◌≤◌, ◌<◌, ◌≡◌, refl, ap, subst, sym, ◌∙◌, true, false, Bool, Option, some, List, ◌∷◌,
  ◌++◌, arith, All, select, length, take, Str, codes, Reply, ok, http,
}
use grimnir.Freki.Auth.{require_ml_control_secret}
use grimnir.Freki.Jobs
use grimnir.Freki.Jobs.{TrainingJob, queued, is_queued, is_live, claim_row}
use grimnir.Freki.Jobs.Table.{find}
use grimnir.Freki.Jobs.Invariant.{IsValid, claim_job-IsValid}
use grimnir.Freki.Jobs.Ownership.{claim_job-ok_iff, claim_job-stored}
use grimnir.Freki.Jobs.Replies.{Holds}
use grimnir.Freki.Jobs.Reports.{Row, Passes}
use grimnir.Freki.Models.{ModelOut}
use grimnir.Nornir.Client.{
  ClaimedJob, Outcome, done, unless_conflict, json, request, success, FrekiClient, Backend, Fate,
  delivered, request_lost, response_lost, Setting, freki, sent, on_db, claimed_pair, counted,
  list_queued_jobs, claim_job, list_jobs, newest_first,
}
use grimnir.Nornir.Daemon.Defs.{
  Ended, returned, escaped, ran, Metrics, Trained, trained, train_error, Ticks, claim_first,
  claim_and_run,
}
use grimnir.Nornir.Daemon.Calls.{Quiet}
use grimnir.Nornir.Daemon.Verdict.{Completed-ended, FailedWith-ended}
use grimnir.Nornir.Daemon.Delivered.{refusal, SettledBy, Settled, execute_job-Settled}
use grimnir.Nornir.Daemon.Oldest.{oldest, newest_first-length, take_whole, find-All, select-All}

module _ {S J : Type 0} where
  abbrev pub waiting : Backend S J → List (TrainingJob S)
  waiting w = select (λ j. is_queued j.status) w.db.jobs

  -- The job is over, and the coroutine has returned.
  abbrev pub Over : ℕ → Ended × Metrics × Backend S J → Type 0
  Over k (e, m, w) = (e ≡ returned) × Row k (λ r. is_live r.status ≡ false) w.db

  -- The answer of a turn that ran a job, with the job over.
  abbrev pub Ran : ℕ → Option Bool × Metrics × Backend S J → Type 0
  Ran k (answer, m, w) = (answer ≡ some true) × Row k (λ r. is_live r.status ≡ false) w.db

module _ {S J : Type 0} (setting : Setting S J) where
  -- Every message is delivered, nobody else is at work, the client's secret passes the guard, and
  -- fresh tokens have a length that the endpoints accept.
  pub record Calm (provided : Option Str) : Type 0 where
    pub all : (n : ℕ) → setting.fate n ≡ delivered
    pub idle : (n : ℕ) (w : Backend S J) → setting.others n w ≡ w
    pub shown : require_ml_control_secret setting.ml_secret provided ≡ ok tt
    pub long : (n : ℕ) → 16 ≤ length (setting.token n)
    pub short : (n : ℕ) → length (setting.token n) ≤ 255

  sent-done :
      {A : Type 0} (path : Str) (f : Fate) (w : Backend S J) (a : A)
      → f ≡ delivered
      → json
          (request (codes "GET") path success (sent setting f w (on_db setting 200 w (ok a, w.db))))
        ≡ (done a, counted setting w)
  sent-done path delivered w a e = refl
  sent-done path request_lost w a e = absurd (cc e)
  sent-done path response_lost w a e = absurd (cc e)

  sent-claimed :
      (path token : Str) (f : Fate) (w : Backend S J) (x : Reply (TrainingJob S) × Jobs.Db S)
      (r : TrainingJob S)
      → f ≡ delivered
      → x.0 ≡ ok r
      → r.claim_token ≡ some token
      → unless_conflict (
          json (
            request
              (codes "POST")
              path
              success
              (sent setting f w (on_db setting 200 w (claimed_pair setting x)))))
        ≡ (
          done (some (record { id = r.id; spec = r.spec; claim_token = token })),
          counted setting (record w { db = x.1 }),
        )
  sent-claimed path token delivered w x r e answered given = rw (answered, given) refl
  sent-claimed path token request_lost w x r e answered given = absurd (cc e)
  sent-claimed path token response_lost w x r e answered given = absurd (cc e)

  module _ (str_int : ℕ → Str) (client : FrekiClient) (daemon_id : ℕ)
      (calm : Calm client.ml_control_shared_secret) where
    idle-Quiet : (k : ℕ) → Quiet setting k
    idle-Quiet k = record {
      valid = λ n w v. rw (calm.idle n w) v;
      same_row = λ n w. rw (calm.idle n w) refl;
      stored = λ n w bytes s. rw (calm.idle n w) s;
    }

    list_queued_jobs-calm :
        (w : Backend S J)
        → length (waiting w) ≤ 50
        → list_queued_jobs (freki setting) str_int client 50 w
          ≡ (done (newest_first (waiting w)), counted setting w)
    unfolding list_queued_jobs list_jobs
    list_queued_jobs-calm w few =
        let answer : Backend S J → Outcome (List (TrainingJob S)) × Backend S J =
          λ v. (done (take 50 (newest_first (waiting v))), counted setting v) in
        sent-done _ (setting.fate w.served) (setting.others w.served w)
          (take 50 (newest_first (waiting (setting.others w.served w)))) (calm.all w.served)
        ∙ ap answer (calm.idle w.served w)
        ∙ ap (λ l. (done l, counted setting w))
            (take_whole 50 (newest_first (waiting w))
              (subst (λ n. n ≤ 50) (sym (newest_first-length (waiting w))) few))

    -- A claim of a queued job by a known daemon.
    claim_job-calm :
        (w : Backend S J) (j : TrainingJob S)
        → IsValid w.db
        → Mem daemon_id w.db.daemons
        → find j.id w.db.jobs ≡ some j
        → j.status ≡ queued
        → (token : Str) × (16 ≤ length token)
          × (length token ≤ 255)
          × (w'' : Backend S J) × (claim_job (freki setting) str_int client j.id daemon_id w
              ≡ (done (some (record { id = j.id; spec = j.spec; claim_token = token })), w''))
          × Row j.id (Holds (record { daemon_id = daemon_id; claim_token = token })) w''.db
    unfolding claim_job
    claim_job-calm w j v known found waits =
        let w' = setting.others w.served w in
        let same = calm.idle w.served w in
        let provided = client.ml_control_shared_secret in
        let token = setting.token w'.served in
        let now = setting.now w'.served in
        let v' : IsValid w'.db = rw same v in
        let r = claim_row daemon_id token now j in
        let found' : find j.id w'.db.jobs ≡ some j = rw same found in
        let known' : Mem daemon_id w'.db.daemons = rw same known in
        let answered =
          (claim_job-ok_iff setting.ml_secret provided j.id daemon_id token now w'.db r v').1
            (j, calm.shown, known', found', waits, refl) in
        let stored =
          claim_job-stored setting.ml_secret provided j.id daemon_id token now w'.db r v'
            answered in
        let done_so =
          sent-claimed _ token (setting.fate w.served) w' _ r (calm.all w.served) answered refl in
        (
          token,
          calm.long _,
          calm.short _,
          _,
          done_so,
          record {
            valid = claim_job-IsValid setting.ml_secret provided w'.db v' j.id daemon_id token now;
            row = r;
            found = stored;
            state = record { is_on = refl; owner = refl; token = refl };
          },
        )

    ended-Row :
        (k : ℕ) (P : TrainingJob S → Type 0) (db : Jobs.Db S)
        → ((r : TrainingJob S) → P r → is_live r.status ≡ false)
        → Row k P db
        → Row k (λ r. is_live r.status ≡ false) db
    ended-Row k P db over h = record {
      valid = h.valid;
      row = h.row;
      found = h.found;
      state = over h.row h.state;
    }

    SettledBy-Over :
        (k : ℕ) (m : Metrics) (bytes : List ℕ) (reply : Reply (ModelOut J))
        (r : Ended × Metrics × Backend S J)
        → SettledBy setting k str_int m bytes reply r
        → Over k r
    SettledBy-Over k m bytes (ok out) (e, n, w) h = (h.0, ended-Row k _ w.db Completed-ended h.2)
    SettledBy-Over k m bytes (http c) (e, n, w) h =
        (h.0, ended-Row k _ w.db (FailedWith-ended (refusal setting k str_int m c)) h.2)

    Settled-Over :
        (k : ℕ) (m : Metrics) (daemon_name : Str) (result : Trained) (at : Backend S J)
        (r : Ended × Metrics × Backend S J)
        → Settled setting k str_int m client daemon_name result at r
        → Over k r
    Settled-Over k m daemon_name (train_error text) at (e, n, w) h =
        (h.0, ended-Row k _ w.db (FailedWith-ended (codes "training error: " ++ text)) h.2)
    Settled-Over k m daemon_name (trained bytes a b) at r h = SettledBy-Over k m bytes _ r h

    module _ (daemon_name : Str) (run_job : ClaimedJob S → Backend S J → Trained)
        (ticks : Ticks) where
      ran-Ran : (k : ℕ) (r : Ended × Metrics × Backend S J) → Over k r → Ran k (ran r)
      ran-Ran k (returned, m, w) h = (refl, h.1)
      ran-Ran k (escaped, m, w) h = absurd (cc (h.0))

      claim_first-Ran :
          (w : Backend S J) (m : Metrics) (j : TrainingJob S) (rest : List (TrainingJob S))
          → IsValid w.db
          → Mem daemon_id w.db.daemons
          → find j.id w.db.jobs ≡ some j
          → j.status ≡ queued
          → Ran j.id (
              claim_first
                (freki setting)
                str_int
                client
                daemon_id
                daemon_name
                run_job
                ticks
                (j ∷ rest)
                m
                w)
      unfolding claim_first
      claim_first-Ran w m j rest v known found waits =
          let (token, long, short, w', answered, held) = claim_job-calm w j v known found waits in
          let p : Passes setting.ml_secret client.ml_control_shared_secret
              (record { daemon_id = daemon_id; claim_token = token }) =
            record { shown = calm.shown; long = long; short = short } in
          let m' = record m { jobs_claimed = suc m.jobs_claimed } in
          let job : ClaimedJob S = record { id = j.id; spec = j.spec; claim_token = token } in
          rw answered (
            ran-Ran j.id _ (
              Settled-Over j.id m' daemon_name (run_job job w') _ _ (
                execute_job-Settled setting j.id str_int client daemon_id token j.spec
                  (idle-Quiet j.id) p calm.all daemon_name (run_job job w') ticks m' w' held)))

      -- When every message is delivered, nobody else is at work, the secret passes the guard, fresh
      -- tokens have 16 to 255 characters, and the table is well formed, a turn of a registered daemon
      -- that finds between one and fifty queued jobs takes an oldest one of them, runs it, and answers
      -- that it did: the job is over when the turn ends.
      pub claim_and_run-oldest :
          (w : Backend S J) (m : Metrics)
          → IsValid w.db
          → Mem daemon_id w.db.daemons
          → 0 < length (waiting w)
          → length (waiting w) ≤ 50
          → (j : TrainingJob S) × (find j.id w.db.jobs ≡ some j)
            × (j.status ≡ queued)
            × All (λ x. j.created_at ≤ x.created_at) (waiting w)
            × Ran j.id (
                claim_and_run
                  (freki setting)
                  str_int
                  client
                  daemon_id
                  daemon_name
                  run_job
                  ticks
                  m
                  w)
      unfolding claim_and_run
      claim_and_run-oldest w m v known some_job few =
          let there =
            select-All (λ x. find x.id w.db.jobs ≡ some x) (λ j. is_queued j.status) w.db.jobs
              (find-All 0 w.db.next_id w.db.jobs v.ids) in
          let (j, rest, first, (found, passed), old) = oldest _ (waiting w) some_job there in
          let waits : j.status ≡ queued = ground arith in
          (
            j,
            found,
            waits,
            old,
            rw (list_queued_jobs-calm w few) (
                rw first (
                  claim_first-Ran (counted setting w)
                    (record m { queue_depth = length (newest_first (waiting w)) }) j rest v known
                    found waits)),
          )
