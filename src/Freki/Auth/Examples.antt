-- ===== src/Freki/Auth/Examples.antt =====
-- The guards at a configured secret.
use grimnir.Base.{◌≡◌, ◌↔◌, ◌⊎◌, ◌<◌, refl, some, [], Str, codes, All, ok, http}
use grimnir.Freki.Auth.{
  require_ml_control_secret, require_model_upload_secret, require_secret-ok_iff,
}

abbrev secret : Str
secret = codes "s3cret"

-- The digest test raises on text beyond ASCII, so such a header is answered with a server error.
non_ascii_run : require_ml_control_secret secret (some (codes "é")) ≡ http 500
unfolding require_ml_control_secret
non_ascii_run = refl

require_secret-ok_iff_example :
    ((require_ml_control_secret secret (some secret) ≡ ok tt)
      ↔ ((secret ≡ []) ⊎ ((some secret ≡ some secret) × All (λ c. c < 128) secret)))
    × ((require_model_upload_secret secret (some secret) ≡ ok tt)
        ↔ ((secret ≡ []) ⊎ ((some secret ≡ some secret) × All (λ c. c < 128) secret)))
require_secret-ok_iff_example = require_secret-ok_iff secret (some secret)
