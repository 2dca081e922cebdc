-- ===== src/Freki/Daemons/Examples.antt =====
-- A daemon that comes back with another host.
use grimnir.Base.{ℕ, ◌≡◌, refl, Bool, false, some, none, List, [], ◌∷◌, Str, str_eq, codes, ok}
use grimnir.Freki.Auth.{require_ml_control_secret}
use grimnir.Freki.Daemons.{
  DaemonHeartbeat, TrainingDaemon, upsert, daemon_heartbeat, by_name, id_of,
  daemon_heartbeat-registers,
}

abbrev body : DaemonHeartbeat ℕ
body = record { name = codes "gpu"; host = codes "b"; ip_address = none; capabilities = 2 }

abbrev daemons : List (TrainingDaemon ℕ)
daemons =
    record {
      id = 4;
      name = codes "gpu";
      host = codes "a";
      ip_address = none;
      capabilities = 1;
      last_seen = 10;
      created_at = 10;
    }
    ∷ []

abbrev never : Str → Bool
never text = false

program : Unit {0}
unfolding require_ml_control_secret upsert daemon_heartbeat str_eq
program = tt

open_guard : require_ml_control_secret [] none ≡ ok tt
unfolding program
open_guard = refl

daemon_heartbeat-registers_example :
    (d : TrainingDaemon ℕ) × ((daemon_heartbeat [] none never 9 20 body daemons).0 ≡ ok d)
    × (by_name (codes "gpu") (daemon_heartbeat [] none never 9 20 body daemons).1 ≡ some d)
    × (d.id ≡ id_of (by_name (codes "gpu") daemons) 9)
    × (d.last_seen ≡ 20)
    × ((other : Str)
        → str_eq (codes "gpu") other ≡ false
        → by_name other (daemon_heartbeat [] none never 9 20 body daemons).1
          ≡ by_name other daemons)
daemon_heartbeat-registers_example =
    daemon_heartbeat-registers [] none never 9 20 body daemons open_guard refl
