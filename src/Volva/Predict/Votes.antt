-- ===== src/Volva/Predict/Votes.antt =====
-- The majority vote: what `Counter.most_common(1)` finds, and which rooms are published as occupied.
use grimnir.Base.{
  ℕ, ◌+◌, ◌≤◌, ◌≡◌, ◌⊎◌, inl, inr, refl, ap, sym, subst, true, false, none, some, List, [], ◌∷◌,
  ltb, if◌then◌else◌, Str, str_eq, str_eq_iff, str_eq_refl, arith, Bool-cases, not_ltb,
}
use grimnir.Volva.Predict.Defs.{count_vote, counter_from, best_from, best_of, top_vote}

-- How often a room was voted for.
abbrev pub occurrences : Str → List Str → ℕ
occurrences s [] = 0
occurrences s (r ∷ rs) = (if str_eq r s then 1 else 0) + occurrences s rs

-- The count stored for a room.
abbrev stored : Str → List (Str × ℕ) → ℕ
stored s [] = 0
stored s ((r, n) ∷ c) = if str_eq r s then n else stored s c

abbrev Fresh : Str → List (Str × ℕ) → Type 0
Fresh s [] = Unit
Fresh s ((r, n) ∷ c) = (str_eq r s ≡ false) × Fresh s c

abbrev Unique : List (Str × ℕ) → Type 0
Unique [] = Unit
Unique ((r, n) ∷ c) = Fresh r c × Unique c

stored-count_vote :
    (s r : Str) (c : List (Str × ℕ))
    → stored s (count_vote r c) ≡ stored s c + (if str_eq r s then 1 else 0)
stored-count_vote s r [] = ground arith
stored-count_vote s r ((q, n) ∷ c) =
    ground (arith, stored-count_vote s r c, str_eq_iff q r, str_eq_iff q s, str_eq_iff r s)

Fresh-count_vote :
    (q r : Str) (c : List (Str × ℕ)) → str_eq r q ≡ false → Fresh q c → Fresh q (count_vote r c)
Fresh-count_vote q r [] h f = (h, tt)
Fresh-count_vote q r ((p, n) ∷ c) h f = ground (arith, Fresh-count_vote q r c)

Unique-count_vote : (r : Str) (c : List (Str × ℕ)) → Unique c → Unique (count_vote r c)
Unique-count_vote r [] u = (tt, tt)
Unique-count_vote r ((p, n) ∷ c) u =
    ground (arith, Unique-count_vote r c, Fresh-count_vote p r c, str_eq_iff p r, str_eq_iff r p)

stored-counter_from :
    (s : Str) (c : List (Str × ℕ)) (rs : List Str)
    → stored s (counter_from c rs) ≡ stored s c + occurrences s rs
unfolding counter_from
stored-counter_from s c [] = omega arith
stored-counter_from s c (r ∷ rs) =
    omega (arith, stored-counter_from s (count_vote r c) rs, stored-count_vote s r c)

Unique-counter_from : (c : List (Str × ℕ)) (rs : List Str) → Unique c → Unique (counter_from c rs)
unfolding counter_from
Unique-counter_from c [] u = u
Unique-counter_from c (r ∷ rs) u = Unique-counter_from (count_vote r c) rs (Unique-count_vote r c u)

best_from-ge : (b : Str × ℕ) (c : List (Str × ℕ)) → b.1 ≤ (best_from b c).1
unfolding best_from
best_from-ge b [] = omega arith
best_from-ge b (e ∷ c) = ground (arith, best_from-ge b c, best_from-ge e c)

stored-le-best_from : (s : Str) (b : Str × ℕ) (c : List (Str × ℕ)) → stored s c ≤ (best_from b c).1
unfolding best_from
stored-le-best_from s b [] = omega arith
stored-le-best_from s b (e ∷ c) = ground (
  arith,
  best_from-ge b c,
  best_from-ge e c,
  stored-le-best_from s b c,
  stored-le-best_from s e c,
)

stored-Fresh : (s t : Str) (c : List (Str × ℕ)) → Fresh s c → str_eq s t ≡ true → stored t c ≡ 0
stored-Fresh s t [] f e = refl
stored-Fresh s t ((r, n) ∷ c) f e =
    ground (arith, stored-Fresh s t c f.1 e, str_eq_iff s t, str_eq_iff r s, str_eq_iff r t)

best_from_up :
    (b e : Str × ℕ) (c : List (Str × ℕ)) → ltb b.1 e.1 ≡ true → best_from b (e ∷ c) ≡ best_from e c
unfolding best_from
best_from_up b e c t = ap (λ x. best_from (if x then e else b) c) t

best_from_stay :
    (b e : Str × ℕ) (c : List (Str × ℕ)) → ltb b.1 e.1 ≡ false → best_from b (e ∷ c) ≡ best_from b c
unfolding best_from
best_from_stay b e c t = ap (λ x. best_from (if x then e else b) c) t

stored_kept :
    (a e : Str × ℕ) (c : List (Str × ℕ))
    → Fresh e.0 c
    → e.1 ≤ (best_from a c).1
    → stored (best_from a c).0 c ≡ (best_from a c).1
    → stored (best_from a c).0 (e ∷ c) ≡ (best_from a c).1
stored_kept a e c f le found = ground (arith, stored-Fresh e.0 (best_from a c).0 c f)

-- The entry found is the one to start from, or stands in the list.
best_from-stored :
    (b : Str × ℕ) (c : List (Str × ℕ))
    → Unique c
    → (best_from b c ≡ b) ⊎ (stored (best_from b c).0 c ≡ (best_from b c).1)
best_from-stored b [] u = unfold best_from in (inl refl)
best_from-stored b (e ∷ c) u = elim (Bool-cases (ltb b.1 e.1)) [
  | inl t ↦
      subst (λ x. (x ≡ b) ⊎ (stored x.0 (e ∷ c) ≡ x.1)) (sym (best_from_up b e c t))
        (moved (best_from-stored e c u.1))
  | inr f ↦
      subst (λ x. (x ≡ b) ⊎ (stored x.0 (e ∷ c) ≡ x.1)) (sym (best_from_stay b e c f))
        (stayed (not_ltb b.1 e.1 f) (best_from-stored b c u.1))
]
  where
    moved :
        (best_from e c ≡ e) ⊎ (stored (best_from e c).0 c ≡ (best_from e c).1)
        → (best_from e c ≡ b) ⊎ (stored (best_from e c).0 (e ∷ c) ≡ (best_from e c).1)
    moved (inl same) = inr (subst (λ x. stored x.0 (e ∷ c) ≡ x.1) (sym same) (rw (str_eq_refl e.0)))
    moved (inr found) = inr (stored_kept e e c u.0 (best_from-ge e c) found)

    stayed :
        e.1 ≤ b.1
        → (best_from b c ≡ b) ⊎ (stored (best_from b c).0 c ≡ (best_from b c).1)
        → (best_from b c ≡ b) ⊎ (stored (best_from b c).0 (e ∷ c) ≡ (best_from b c).1)
    stayed le (inl same) = inl same
    stayed le (inr found) = inr (stored_kept b e c u.0 (omega (arith, best_from-ge b c)) found)

stored-best_from :
    (b : Str × ℕ) (c : List (Str × ℕ))
    → Unique (b ∷ c)
    → stored (best_from b c).0 (b ∷ c) ≡ (best_from b c).1
stored-best_from b c u = elim (best_from-stored b c u.1) [
  | inl same ↦ subst (λ x. stored x.0 (b ∷ c) ≡ x.1) (sym same) (rw (str_eq_refl b.0))
  | inr kept ↦ stored_kept b b c u.0 (best_from-ge b c) kept
]

best_of-most :
    (c : List (Str × ℕ)) (r s : Str) → Unique c → best_of c ≡ some r → stored s c ≤ stored r c
best_of-most [] r s u e = cc
best_of-most (b ∷ c) r s u e =
    let found : (best_from b c).0 ≡ r = cc e in
    subst (λ x. stored s (b ∷ c) ≤ stored x (b ∷ c)) found
      (subst (λ n. stored s (b ∷ c) ≤ n) (sym (stored-best_from b c u))
        (ground (arith, best_from-ge b c, stored-le-best_from s b c)))

best_of-none : (c : List (Str × ℕ)) → best_of c ≡ none → c ≡ []
best_of-none [] e = refl
best_of-none (b ∷ c) e = cc

-- The vote that counts is one with the most occurrences in the history, and there is one as soon as
-- the history is not empty.
pub top_vote-most :
    (votes : List Str) (r : Str)
    → top_vote votes ≡ some r
    → (s : Str) → occurrences s votes ≤ occurrences r votes
unfolding top_vote
top_vote-most votes r e s = omega (
  arith,
  best_of-most (counter_from [] votes) r s (Unique-counter_from [] votes tt) e,
  stored-counter_from s [] votes,
  stored-counter_from r [] votes,
)

-- A history without a winning vote is empty.
pub top_vote-none : (votes : List Str) → top_vote votes ≡ none → votes ≡ []
unfolding top_vote
top_vote-none [] e = refl
top_vote-none (r ∷ rs) e =
    let nothing : stored r (counter_from [] (r ∷ rs)) ≡ 0 =
      ap (stored r) (best_of-none (counter_from [] (r ∷ rs)) e) in
    absurd (ground (arith, stored-counter_from r [] (r ∷ rs), str_eq_refl r))
