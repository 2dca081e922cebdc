-- ===== src/Base/Mapping.antt =====
-- A Python dict keyed by numbers, in insertion order.
use Prim.Native.Nat.{ℕ}
use mathlib.Core.Path.{◌≡◌, subst₂}
use mathlib.Core.Logic.{◌≢◌, inl, inr}
use mathlib.Core.Bool.{Bool, true, false}
use mathlib.Core.Option.{Option, none, some}
use mathlib.Core.List.{List, [], ◌∷◌}
use native.Mathlib.Omega.{arith}
use grimnir.Base.Tests.{◌==◌, ==_iff, Bool-cases, if◌then◌else◌}
use grimnir.Base.Lists.{All}

abbrev pub Dict {ℓ} : Type ℓ → Type ℓ
Dict V = List (ℕ × V)

module _ {ℓ} {V : Type ℓ} where
  abbrev pub dict_get : ℕ → Dict V → Option V
  dict_get k [] = none
  dict_get k ((j, v) ∷ d) = if j == k then some v else dict_get k d

  -- `d[k] = v`: in place, or at the end.
  abbrev pub dict_set : ℕ → V → Dict V → Dict V
  dict_set k v [] = (k, v) ∷ []
  dict_set k v ((j, w) ∷ d) = if j == k then (k, v) ∷ d else (j, w) ∷ dict_set k v d

  pub dict_get-dict_set_self : (k : ℕ) (v : V) (d : Dict V) → dict_get k (dict_set k v d) ≡ some v
  dict_get-dict_set_self k v [] = ground arith
  dict_get-dict_set_self k v ((j, w) ∷ d) = ground (arith, dict_get-dict_set_self k v d)

  pub dict_get-dict_set_ne :
      (i k : ℕ) (v : V) (d : Dict V) → i ≢ k → dict_get i (dict_set k v d) ≡ dict_get i d
  dict_get-dict_set_ne i k v [] h = ground arith
  dict_get-dict_set_ne i k v ((j, w) ∷ d) h = ground (arith, dict_get-dict_set_ne i k v d h)

  -- A property of each entry survives a write that has it.
  pub All-dict_set {κ} :
      (P : ℕ × V → Type κ) (k : ℕ) (v : V) (d : Dict V)
      → P (k, v)
      → All P d
      → All P (dict_set k v d)
  All-dict_set P k v [] p h = (p, tt)
  All-dict_set P k v ((j, w) ∷ d) p h = go (All-dict_set P k v d p h.1) (j == k)
    where
      go :
          All P (dict_set k v d)
          → (b : Bool) → All P (if b then (k, v) ∷ d else (j, w) ∷ dict_set k v d)
      go rest true = (p, h.1)
      go rest false = (h.0, rest)

  -- What is found has the property.
  pub All-dict_get {κ} :
      (P : ℕ × V → Type κ) (k : ℕ) (v : V) (d : Dict V) → All P d → dict_get k d ≡ some v → P (k, v)
  All-dict_get P k v [] h e = absurd (cc e)
  All-dict_get P k v ((j, w) ∷ d) h e = elim (Bool-cases (j == k)) [
    | inl t ↦
        let here : some w ≡ some v = rw t at e in
        let same : j ≡ k = (==_iff j k).0 t in
        let value : w ≡ v = cc here in subst₂ (λ x y. P (x, y)) same value h.0
    | inr f ↦ All-dict_get P k v d h.1 (rw f at e)
  ]
