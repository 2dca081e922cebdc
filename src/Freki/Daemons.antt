-- ===== src/Freki/Daemons.antt =====
-- The training daemons: freki/src/freki/routers/training_daemons.py. `J` is the type of the
-- capabilities, and `inet` the test of PostgreSQL's type for addresses.
mod Examples
use grimnir.Base.{
  ℕ, ◌≡◌, refl, ap, ◌∙◌, inl, inr, Bool, true, false, Option, none, some, List, [], ◌∷◌,
  if◌then◌else◌, Bool-cases, Str, str_eq, str_eq_iff, Reply, ok, http,
}
use grimnir.Freki.Auth.{require_ml_control_secret}

-- class DaemonHeartbeat
pub record DaemonHeartbeat (J : Type 0) : Type 0 where
  pub name : Str
  pub host : Str
  pub ip_address : Option Str
  pub capabilities : J

-- class DaemonOut, and the row of `training_daemons`.
pub record TrainingDaemon (J : Type 0) : Type 0 where
  pub id : ℕ
  pub name : Str
  pub host : Str
  pub ip_address : Option Str
  pub capabilities : J
  pub last_seen : ℕ
  pub created_at : ℕ

abbrev pub valid_address : (Str → Bool) → Option Str → Bool
valid_address inet none = true
valid_address inet (some text) = inet text

module _ {J : Type 0} where
  -- INSERT ... ON CONFLICT (name) DO UPDATE ... RETURNING. `next_id` is what the sequence gives.
  unfoldable pub upsert :
      ℕ
      → ℕ
      → DaemonHeartbeat J
      → List (TrainingDaemon J)
      → TrainingDaemon J × List (TrainingDaemon J)
  upsert next_id now body [] =
      let d : TrainingDaemon J = record {
        id = next_id;
        name = body.name;
        host = body.host;
        ip_address = body.ip_address;
        capabilities = body.capabilities;
        last_seen = now;
        created_at = now;
      } in
      (d, d ∷ [])
  upsert next_id now body (d ∷ ds) =
      let (found, rest) = upsert next_id now body ds in
      let seen : TrainingDaemon J = record d {
        host = body.host;
        ip_address = body.ip_address;
        capabilities = body.capabilities;
        last_seen = now;
      } in
      if str_eq d.name body.name then (seen, seen ∷ ds) else (found, d ∷ rest)

  abbrev pub stored_daemon :
      (Str → Bool)
      → ℕ
      → ℕ
      → DaemonHeartbeat J
      → List (TrainingDaemon J)
      → Reply (TrainingDaemon J) × List (TrainingDaemon J)
  stored_daemon inet next_id now body ds =
      if valid_address inet body.ip_address
      then (let (d, ds') = upsert next_id now body ds in (ok d, ds'))
      else (http 500, ds)

  abbrev pub guarded_heartbeat :
      Reply (Unit {0})
      → (Str → Bool)
      → ℕ
      → ℕ
      → DaemonHeartbeat J
      → List (TrainingDaemon J)
      → Reply (TrainingDaemon J) × List (TrainingDaemon J)
  guarded_heartbeat (ok _) inet next_id now body ds = stored_daemon inet next_id now body ds
  guarded_heartbeat (http code) inet next_id now body ds = (http code, ds)

  unfoldable pub daemon_heartbeat :
      Str
      → Option Str
      → (Str → Bool)
      → ℕ
      → ℕ
      → DaemonHeartbeat J
      → List (TrainingDaemon J)
      → Reply (TrainingDaemon J) × List (TrainingDaemon J)
  daemon_heartbeat secret provided inet next_id now body ds =
      guarded_heartbeat (require_ml_control_secret secret provided) inet next_id now body ds

  -- The first row with the name.
  abbrev pub by_name : Str → List (TrainingDaemon J) → Option (TrainingDaemon J)
  by_name name [] = none
  by_name name (d ∷ ds) = if str_eq d.name name then some d else by_name name ds

  abbrev pub id_of : Option (TrainingDaemon J) → ℕ → ℕ
  id_of none next_id = next_id
  id_of (some d) next_id = d.id

  upsert-by_name_self :
      (next_id now : ℕ) (body : DaemonHeartbeat J) (ds : List (TrainingDaemon J))
      → (by_name body.name (upsert next_id now body ds).1 ≡ some (upsert next_id now body ds).0)
        × ((upsert next_id now body ds).0.id ≡ id_of (by_name body.name ds) next_id)
        × ((upsert next_id now body ds).0.last_seen ≡ now)
  unfolding upsert
  upsert-by_name_self next_id now body [] =
      (rw ((str_eq_iff body.name body.name).1 refl) refl, refl, refl)
  upsert-by_name_self next_id now body (d ∷ ds) = elim (Bool-cases (str_eq d.name body.name)) [
    | inl t ↦ rw t (rw t refl, refl, refl)
    | inr f ↦ let (a, b, c) = upsert-by_name_self next_id now body ds in rw f (rw f a, b, c)
  ]

  upsert-by_name_ne :
      (next_id now : ℕ) (body : DaemonHeartbeat J) (ds : List (TrainingDaemon J)) (other : Str)
      → str_eq body.name other ≡ false
      → by_name other (upsert next_id now body ds).1 ≡ by_name other ds
  unfolding upsert
  upsert-by_name_ne next_id now body [] other n = rw n refl
  upsert-by_name_ne next_id now body (d ∷ ds) other n =
      elim (Bool-cases (str_eq d.name body.name)) [
        | inl t ↦
            let same : str_eq d.name other ≡ false =
              ap (λ x. str_eq x other) ((str_eq_iff d.name body.name).0 t) ∙ n in
            rw t (rw same refl)
        | inr f ↦ rw f (
            ap (λ r. if str_eq d.name other then some d else r)
              (upsert-by_name_ne next_id now body ds other n))
      ]

  -- A heartbeat that passes the guard and names a valid address or none is answered with the daemon's
  -- row, seen now and stored under its name: a daemon that is known keeps its id, a new one gets the
  -- next, and the rows of other names stay as they were.
  pub daemon_heartbeat-registers :
      (secret : Str) (provided : Option Str) (inet : Str → Bool) (next_id now : ℕ)
      (body : DaemonHeartbeat J) (ds : List (TrainingDaemon J))
      → require_ml_control_secret secret provided ≡ ok tt
      → valid_address inet body.ip_address ≡ true
      → (d : TrainingDaemon J) × ((daemon_heartbeat secret provided inet next_id now body ds).0
          ≡ ok d)
        × (by_name body.name (daemon_heartbeat secret provided inet next_id now body ds).1 ≡ some d)
        × (d.id ≡ id_of (by_name body.name ds) next_id)
        × (d.last_seen ≡ now)
        × ((other : Str)
            → str_eq body.name other ≡ false
            → by_name other (daemon_heartbeat secret provided inet next_id now body ds).1
              ≡ by_name other ds)
  unfolding daemon_heartbeat
  daemon_heartbeat-registers secret provided inet next_id now body ds g v =
      let (stored, same_id, seen) = upsert-by_name_self next_id now body ds in
      (
        (upsert next_id now body ds).0,
        rw g (rw v refl),
        rw g (rw v stored),
        same_id,
        seen,
        λ other n. rw g (rw v (upsert-by_name_ne next_id now body ds other n)),
      )
