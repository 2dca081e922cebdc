-- ===== src/Nornir/Daemon/Main.antt =====
-- The two loops of `main` in nornir/src/nornir/main.py: the registration, and the turns after it.
use grimnir.Base.{ℕ, Bool, true, false, Option, none, some, List, [], ◌∷◌}
use grimnir.Nornir.Client.{Outcome, done, freki_error, exception}
use grimnir.Nornir.Daemon.Defs.{Metrics}

-- Where the registration is after some attempts.
pub data Registration : Type 0 where
  registered : ℕ → Registration
  stopped crashed retrying : Registration

-- Each attempt is what `_register_daemon` comes to, and whether the stop event is set before the wait
-- that follows an error is over. Exceptions of httpx are neither FrekiError nor OSError.
unfoldable pub register : List (Outcome ℕ × Bool) → Registration
register [] = retrying
register ((done daemon_id, _) ∷ _) = registered daemon_id
register ((freki_error _, true) ∷ _) = stopped
register ((freki_error _, false) ∷ attempts) = register attempts
register ((exception, _) ∷ _) = crashed

-- Where the loop over the turns is.
pub data Serving : Type 0 where
  serving shut_down died : Serving

-- `stops` says at each test of the loop whether the stop event is set; `turn` is `_claim_and_run`.
module _ {W : Type 0} (turn : Metrics → W → Option Bool × Metrics × W) where
  unfoldable pub serve : List Bool → Metrics → W → Serving × Metrics × W
  serve [] m w = (serving, m, w)
  serve (true ∷ _) m w = (shut_down, m, w)
  serve (false ∷ stops) m w =
      let (answer, m', w') = turn m w in
      elim answer [ none ↦ (died, m', w') | some _ ↦ serve stops m' w' ]
