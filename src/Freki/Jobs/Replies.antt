-- ===== src/Freki/Jobs/Replies.antt =====
-- When the job endpoints answer with a row: the tests behind a reply, one lemma for each layer.
use grimnir.Base.{
  ℕ, ◌≡◌, refl, ap, sym, ◌∙◌, Bool, true, false, ◌&&◌, Option, none, some, map, arith, ◌==◌, update,
  Str, str_eq_iff, Reply, ok, http, if◌then◌else◌, Bool-cases, inl, inr, ◌↔◌,
}
use grimnir.Base.{==_iff, Bool-cases}
use grimnir.Freki.Jobs.Defs.{running, TrainingJob, JobControlBody, Db, held_by, eq_str}
use grimnir.Freki.Jobs.Handlers.{finish, after_guard, update_returning}
use grimnir.Freki.Jobs.Table.{find, find-update, find-id, select-id, hit}
use grimnir.Freki.Jobs.Invariant.{IsValid}

eq_str_iff : (o : Option Str) (t : Str) → (eq_str o t ≡ true) ↔ (o ≡ some t)
eq_str_iff none t = ground arith
eq_str_iff (some s) t = ground (arith, str_eq_iff s t)

ok_of_if {ℓ} :
    {A : Type ℓ} (b : Bool) (x r : A) (code : ℕ)
    → (if b then ok x else http code) ≡ ok r
    → (b ≡ true) × (r ≡ x)
ok_of_if true x r code h = (refl, cc)
ok_of_if false x r code h = cc

module _ {S : Type 0} where
  -- The job is running, for the daemon and under the token that the body names.
  pub record Holds (body : JobControlBody) (j : TrainingJob S) : Type 0 where
    pub is_on : j.status ≡ running
    pub owner : j.daemon_id ≡ some body.daemon_id
    pub token : j.claim_token ≡ some body.claim_token

  pub held_by_iff :
      (k : ℕ) (body : JobControlBody) (j : TrainingJob S)
      → j.id ≡ k
      → (held_by k body j ≡ true) ↔ Holds body j
  held_by_iff k body j e = (λ h. to h, λ h. from h)
    where
      to : held_by k body j ≡ true → Holds body j
      to h = record {
        is_on = ground arith;
        owner = ground arith;
        token = ground (arith, eq_str_iff j.claim_token body.claim_token);
      }

      from : Holds body j → held_by k body j ≡ true
      from h = ground (arith, h.is_on, h.owner, h.token, eq_str_iff j.claim_token body.claim_token)

  -- The reply of a conditional update of the row with one id.
  abbrev settle :
      (TrainingJob S → Bool)
      → (TrainingJob S → TrainingJob S)
      → Option (TrainingJob S)
      → Reply (TrainingJob S)
  settle q f none = http 409
  settle q f (some j) = if q j then ok (f j) else http 409

  finish-hit :
      (q : TrainingJob S → Bool) (f : TrainingJob S → TrainingJob S) (o : Option (TrainingJob S))
      (old new : Db S)
      → (finish (map f (hit q o)) old new).0 ≡ settle q f o
  finish-hit q f none old new = refl
  finish-hit q f (some j) old new = ground arith

  update_returning-settle :
      (k : ℕ) (q : TrainingJob S → Bool) (f : TrainingJob S → TrainingJob S) (db : Db S)
      → IsValid db
      → (update_returning (λ j. j.id == k && q j) f db).0 ≡ settle q f (find k db.jobs)
  unfolding update_returning
  update_returning-settle k q f db v =
      rw (select-id k 0 db.next_id q db.jobs v.ids) (finish-hit q f (find k db.jobs) db _)

  settle-ok_iff :
      (q : TrainingJob S → Bool) (f : TrainingJob S → TrainingJob S) (o : Option (TrainingJob S))
      (r : TrainingJob S)
      → (settle q f o ≡ ok r) ↔ ((j : TrainingJob S) × (o ≡ some j) × (q j ≡ true) × (r ≡ f j))
  settle-ok_iff q f none r = (λ h. absurd (ground arith), λ h. absurd (ground arith))
  settle-ok_iff q f (some j) r =
      (λ h. let (t, e) = ok_of_if (q j) (f j) r 409 h in (j, refl, t, e), from)
    where
      from :
          ((x : TrainingJob S) × (some j ≡ some x) × (q x ≡ true) × (r ≡ f x))
          → settle q f (some j) ≡ ok r
      from (x, e, t, e') = let same : j ≡ x = cc in rw (same, t) (ap ok (sym e'))

  -- A conditional update of one row succeeds exactly if the row is there and passes.
  pub update_returning-ok_iff :
      (k : ℕ) (q : TrainingJob S → Bool) (f : TrainingJob S → TrainingJob S) (db : Db S)
      (r : TrainingJob S)
      → IsValid db
      → ((update_returning (λ j. j.id == k && q j) f db).0 ≡ ok r)
        ↔ ((j : TrainingJob S) × (find k db.jobs ≡ some j) × (q j ≡ true) × (r ≡ f j))
  update_returning-ok_iff k q f db r v =
      rw (update_returning-settle k q f db v) (settle-ok_iff q f (find k db.jobs) r)

  pub guard-ok_iff :
      {A : Type 0} (g : Reply (Unit {0})) (db : Db S) (rest : Reply A × Db S) (r : A)
      → ((after_guard g db rest).0 ≡ ok r) ↔ ((g ≡ ok tt) × (rest.0 ≡ ok r))
  guard-ok_iff (ok tt) db rest r = (λ h. (refl, h), λ h. h.1)
  guard-ok_iff (http c) db rest r = (λ h. absurd (cc h), λ h. absurd (cc h.0))

  pub test-ok_iff :
      {A : Type 0} (b : Bool) (x : Reply A × Db S) (code : ℕ) (db : Db S) (r : A)
      → ((if b then x else (http code, db)).0 ≡ ok r) ↔ ((b ≡ true) × (x.0 ≡ ok r))
  test-ok_iff true x code db r = (λ h. (refl, h), λ h. h.1)
  test-ok_iff false x code db r = (λ h. absurd (cc h), λ h. absurd (cc h.0))

  -- The table after such an update, by what stood under the id.
  abbrev settle_db :
      ℕ
      → (TrainingJob S → Bool)
      → (TrainingJob S → TrainingJob S)
      → Option (TrainingJob S)
      → Db S
      → Db S
  settle_db k q f none db = db
  settle_db k q f (some j) db =
      if q j then record db { jobs = update (λ x. x.id == k && q x) f db.jobs } else db

  finish-hit_db :
      (k : ℕ) (q : TrainingJob S → Bool) (f : TrainingJob S → TrainingJob S)
      (o : Option (TrainingJob S)) (db : Db S)
      → (finish
          (map f (hit q o))
          db
          (record db { jobs = update (λ x. x.id == k && q x) f db.jobs })).1
        ≡ settle_db k q f o db
  finish-hit_db k q f none db = refl
  finish-hit_db k q f (some j) db = elim (Bool-cases (q j)) [ inl h ↦ rw h | inr h ↦ rw h ]

  update_returning-settle_db :
      (k : ℕ) (q : TrainingJob S → Bool) (f : TrainingJob S → TrainingJob S) (db : Db S)
      → IsValid db
      → (update_returning (λ j. j.id == k && q j) f db).1 ≡ settle_db k q f (find k db.jobs) db
  unfolding update_returning
  update_returning-settle_db k q f db v =
      rw (select-id k 0 db.next_id q db.jobs v.ids) (finish-hit_db k q f (find k db.jobs) db)

  -- The row that a successful update answers with is the one that the table holds from then on.
  pub update_returning-stored :
      (k : ℕ) (q : TrainingJob S → Bool) (f : TrainingJob S → TrainingJob S) (db : Db S)
      (r : TrainingJob S)
      → ((j : TrainingJob S) → (f j).id ≡ j.id)
      → IsValid db
      → (update_returning (λ j. j.id == k && q j) f db).0 ≡ ok r
      → find k (update_returning (λ j. j.id == k && q j) f db).1.jobs ≡ some r
  update_returning-stored k q f db r same v h =
      let (j, found, passed, e) = (update_returning-ok_iff k q f db r v).0 h in
      let at : (j.id == k) ≡ true = (==_iff _ _).1 (find-id k db.jobs j found) in
      rw (update_returning-settle_db k q f db v, found, passed)
        (find-update k (λ x. x.id == k && q x) f same db.jobs j found ∙ rw (at, passed, e))
