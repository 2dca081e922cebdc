-- ===== src/Base/Members.antt =====
-- Membership by a Boolean test.
use mathlib.Core.Path.{◌≡◌, sym}
use mathlib.Core.Bool.{Bool, true}
use mathlib.Core.List.{
  List, [], ◌∷◌, Mem, not-mem-nil, mem-cons_self, mem-cons_of_mem, eq-or-mem_of_mem-cons,
}
use mathlib.Core.Logic.Or
use mathlib.Core.Logic.{◌↔◌, inl, inr}
use native.Mathlib.Omega.{arith}
use grimnir.Base.Lists.{exists}
use grimnir.Base.Tests.{Bool-cases}

module _ {ℓ} {A : Type ℓ} (a : A) (p : A → Bool) (exact : (x : A) → (p x ≡ true) ↔ (x ≡ a)) where
  exists-true_prop : (xs : List A) → IsProp (exists p xs ≡ true)
  exists-true_prop xs = hlevel

  mem_of_exists : (xs : List A) → exists p xs ≡ true → Mem a xs
  mem_of_exists [] h = cc
  mem_of_exists (x ∷ xs) h = elim (Bool-cases (p x)) [
    | inl t ↦ let e : x ≡ a = (exact x).0 t in rw e mem-cons_self
    | inr f ↦ mem-cons_of_mem x (mem_of_exists xs (rw f at h))
  ]

  exists_of_mem : (xs : List A) → Mem a xs → exists p xs ≡ true
  exists_of_mem [] m = absurd (not-mem-nil m)
  exists_of_mem (x ∷ xs) m =
      Or.elim (exists-true_prop (x ∷ xs)) (eq-or-mem_of_mem-cons m) (λ e. rw ((exact x).1 (sym e)))
        (λ t. let rest = exists_of_mem xs t in ground arith)

  -- The test finds a row exactly if the value is in the list.
  pub exists-mem_iff : (xs : List A) → (exists p xs ≡ true) ↔ Mem a xs
  exists-mem_iff xs = (mem_of_exists xs, exists_of_mem xs)
