-- ===== src/Base/Assoc.antt =====
-- A Python dict over any key type with a test of equality, in insertion order.
use mathlib.Core.Path.{◌≡◌, refl, sym, ap, ◌∙◌}
use mathlib.Core.Logic.{◌≢◌, ◌↔◌, inl, inr}
use mathlib.Core.Bool.{Bool, true, false}
use mathlib.Core.Option.{Option, none, some}
use mathlib.Core.List.{List, [], ◌∷◌}
use grimnir.Base.Tests.{Bool-cases, if◌then◌else◌}

module _ {ℓ κ} {K : Type ℓ} {V : Type κ} (eq : K → K → Bool) where
  abbrev pub lookup : K → List (K × V) → Option V
  lookup k [] = none
  lookup k ((j, v) ∷ d) = if eq j k then some v else lookup k d

  -- `d[k] = v`: in place, or at the end.
  abbrev pub insert : K → V → List (K × V) → List (K × V)
  insert k v [] = (k, v) ∷ []
  insert k v ((j, w) ∷ d) = if eq j k then (k, v) ∷ d else (j, w) ∷ insert k v d

  module _ (eq_iff : (j k : K) → (eq j k ≡ true) ↔ (j ≡ k)) where
    pub lookup-insert_self : (k : K) (v : V) (d : List (K × V)) → lookup k (insert k v d) ≡ some v
    lookup-insert_self k v [] = rw ((eq_iff k k).1 refl) refl
    lookup-insert_self k v ((j, w) ∷ d) = elim (Bool-cases (eq j k)) [
      | inl t ↦ rw t (rw ((eq_iff k k).1 refl) refl)
      | inr f ↦ rw f (rw f (lookup-insert_self k v d))
    ]

    pub lookup-insert_ne :
        (i k : K) (v : V) (d : List (K × V)) → i ≢ k → lookup i (insert k v d) ≡ lookup i d
    lookup-insert_ne i k v [] h = elim (Bool-cases (eq k i)) [
      | inl t ↦ absurd (h (sym ((eq_iff k i).0 t)))
      | inr f ↦ rw f refl
    ]
    lookup-insert_ne i k v ((j, w) ∷ d) h = elim (Bool-cases (eq j k)) [
      | inl t ↦ elim (Bool-cases (eq k i)) [
        | inl s ↦ absurd (h (sym ((eq_iff k i).0 s)))
        | inr f ↦
            let same : eq j i ≡ false = ap (λ x. eq x i) ((eq_iff j k).0 t) ∙ f in
            rw t (rw (f, same) refl)
      ]
      | inr f ↦ rw f (rw (lookup-insert_ne i k v d h) refl)
    ]
