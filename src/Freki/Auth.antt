-- ===== src/Freki/Auth.antt =====
-- The shared-secret guards of freki/src/freki/ml_auth.py and of routers/models.py.
mod Examples
use grimnir.Base.{
  ℕ, All, ◌≡◌, ◌<◌, refl, ap, ◌↔◌, ◌⊎◌, inl, inr, arith, str_eq_iff, Bool, true, false, ◌&&◌,
  Option, none, some, [], ◌∷◌, ltb, if◌then◌else◌, Str, str_eq, Reply, ok, http,
}

is_ascii : Str → Bool
is_ascii [] = true
is_ascii (c ∷ s) = ltb c 128 && is_ascii s

-- Python's `hmac.compare_digest` on two `str`: `none` is the TypeError for text beyond ASCII.
compare_digest : Str → Str → Option Bool
unfolding is_ascii str_eq
compare_digest a b = if is_ascii a && is_ascii b then some (str_eq a b) else none

check_provided : Str → Option Str → Reply (Unit {0})
unfolding compare_digest
check_provided secret none = http 401
check_provided secret (some provided) = elim (compare_digest provided secret) [
  | none ↦ http 500
  | some true ↦ ok tt
  | some false ↦ http 401
]

-- An empty configured secret switches the guard off.
unfoldable pub require_ml_control_secret : Str → Option Str → Reply (Unit {0})
unfolding check_provided
require_ml_control_secret [] provided = ok tt
require_ml_control_secret (c ∷ s) provided = check_provided (c ∷ s) provided

unfoldable pub require_model_upload_secret : Str → Option Str → Reply (Unit {0})
unfolding check_provided
require_model_upload_secret [] provided = ok tt
require_model_upload_secret (c ∷ s) provided = check_provided (c ∷ s) provided

is_ascii_iff : (s : Str) → (is_ascii s ≡ true) ↔ All (λ c. c < 128) s
unfolding is_ascii
is_ascii_iff [] = (λ _. tt, λ _. refl)
is_ascii_iff (c ∷ s) = ground (arith, is_ascii_iff s)

-- The digest test answers `true` exactly for equal ASCII texts.
digest-true_iff : (a b : Str) → (compare_digest a b ≡ some true) ↔ ((a ≡ b) × All (λ c. c < 128) b)
unfolding compare_digest
digest-true_iff a b = (to, from)
  where
    to : compare_digest a b ≡ some true → (a ≡ b) × All (λ c. c < 128) b
    to h = (ground (arith, str_eq_iff a b), (is_ascii_iff b).0 (ground arith))

    from : (a ≡ b) × All (λ c. c < 128) b → compare_digest a b ≡ some true
    from (e, h) =
        let ascii = (is_ascii_iff b).1 h in
        let ascii' : is_ascii a ≡ true = rw e ascii in rw (ascii', ascii, (str_eq_iff a b).1 e)

check_provided-ok_iff :
    (secret : Str) (provided : Option Str)
    → (check_provided secret provided ≡ ok tt)
      ↔ ((provided ≡ some secret) × All (λ c. c < 128) secret)
unfolding check_provided
check_provided-ok_iff secret none = (λ h. absurd (cc h), λ h. absurd (cc h.0))
check_provided-ok_iff secret (some p) = (to, from)
  where
    passed : check_provided secret (some p) ≡ ok tt → compare_digest p secret ≡ some true
    passed h = ground arith

    to : check_provided secret (some p) ≡ ok tt → (some p ≡ some secret) × All (λ c. c < 128) secret
    to h = let (e, a) = (digest-true_iff p secret).0 (passed h) in (ap some e, a)

    from :
        (some p ≡ some secret) × All (λ c. c < 128) secret → check_provided secret (some p) ≡ ok tt
    from (e, a) = let d = (digest-true_iff p secret).1 (cc e, a) in rw (d, check_provided)

-- With a secret configured, a request passes exactly if it shows that secret, in ASCII; with none
-- configured every request passes. The model-upload guard has the same rule.
pub require_secret-ok_iff :
    (secret : Str) (provided : Option Str)
    → ((require_ml_control_secret secret provided ≡ ok tt)
        ↔ ((secret ≡ []) ⊎ ((provided ≡ some secret) × All (λ c. c < 128) secret)))
      × ((require_model_upload_secret secret provided ≡ ok tt)
          ↔ ((secret ≡ []) ⊎ ((provided ≡ some secret) × All (λ c. c < 128) secret)))
unfolding require_ml_control_secret require_model_upload_secret
require_secret-ok_iff [] provided = ((λ _. inl refl, λ _. refl), (λ _. inl refl, λ _. refl))
require_secret-ok_iff (c ∷ s) provided = (rule, rule)
  where
    rule :
        (check_provided (c ∷ s) provided ≡ ok tt)
        ↔ ((c ∷ s ≡ []) ⊎ ((provided ≡ some (c ∷ s)) × All (λ x. x < 128) (c ∷ s)))
    rule = (
      λ h. inr ((check_provided-ok_iff (c ∷ s) provided).0 h),
      λ h. elim h [ inl e ↦ absurd (cc e) | inr p ↦ (check_provided-ok_iff (c ∷ s) provided).1 p ],
    )

-- A refusal of the upload guard is a 401, or a 500 for text beyond ASCII.
pub require_model_upload_secret-codes :
    (secret : Str) (provided : Option Str) (c : ℕ)
    → require_model_upload_secret secret provided ≡ http c
    → (c ≡ 401) ⊎ (c ≡ 500)
unfolding require_model_upload_secret check_provided
require_model_upload_secret-codes [] provided c e = absurd (cc e)
require_model_upload_secret-codes (x ∷ s) none c e = inl (cc e)
require_model_upload_secret-codes (x ∷ s) (some t) c e = by_digest (compare_digest t (x ∷ s)) e
  where
    by_digest :
        (d : Option Bool)
        → (elim d as (λ _. Reply (Unit {0})) [
          | none ↦ http 500
          | some true ↦ ok tt
          | some false ↦ http 401
        ])
          ≡ http c
        → (c ≡ 401) ⊎ (c ≡ 500)
    by_digest none e = inr (cc e)
    by_digest (some true) e = absurd (cc e)
    by_digest (some false) e = inl (cc e)
