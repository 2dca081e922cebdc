-- ===== src/Volva/Predict/Rooms.antt =====
-- Which rooms are published as occupied.
use mathlib.Core.List.{Mem}
use grimnir.Base.{
  ℕ, ◌<◌, ◌≤◌, ◌≡◌, ◌↔◌, arith, length, ◌⊎◌, inl, inr, refl, ap, sym, ◌∙◌, Bool, true, false, ◌||◌,
  Option, none, some, List, [], ◌∷◌, map, if◌then◌else◌, Str, str_eq, str_eq_iff, str_eq_refl,
  Bool-cases, Option-cases, exists, exists-mem_iff,
}
use grimnir.Volva.Predict.Defs.{counter_from, top_vote, add_winner, winners_of, aggregate}
use grimnir.Volva.Predict.Votes.{occurrences, top_vote-most, top_vote-none}

-- The room has votes in the history, and none has more.
abbrev pub Heads : Str → List Str → Type 0
Heads r votes = (0 < occurrences r votes) × ((s : Str) → occurrences s votes ≤ occurrences r votes)

-- Some history has the property.
abbrev pub Some : (List Str → Type 0) → List (List Str) → Type 0
Some P [] = ⊥
Some P (votes ∷ rest) = P votes ⊎ Some P rest

-- What `most_common` finds in some history is the room.
abbrev Voted : Str → List (List Str) → Type 0
Voted r = Some (λ votes. top_vote votes ≡ some r)

-- The `human_count` of a room in the published object.
abbrev pub human_count : Str → List (Str × ℕ) → Option ℕ
human_count r [] = none
human_count r ((s, n) ∷ rooms) = if str_eq r s then some n else human_count r rooms

added_iff :
    {W : Type 0} (q r : Str) (b : Bool)
    → (b ≡ true) ↔ W
    → ((str_eq r q || b) ≡ true) ↔ ((some q ≡ some r) ⊎ W)
added_iff q r b known = elim (Bool-cases (str_eq r q)) [
  | inl t ↦
      let same : r ≡ q = (str_eq_iff r q).0 t in rw t (λ _. inl (ap some (sym same)), λ _. refl)
  | inr f ↦ rw f (
    λ h. inr (known.0 h),
    λ h. elim h [ inl k ↦ absurd (clash ((str_eq_iff r q).1 (cc k)) f) | inr w ↦ known.1 w ],
  )
]
  where
    clash : str_eq r q ≡ true → str_eq r q ≡ false → ⊥
    clash t f = cc

winners-Voted_iff :
    (r : Str) (vs : List (List Str)) → (exists (str_eq r) (winners_of vs) ≡ true) ↔ Voted r vs
unfolding winners_of
winners-Voted_iff r [] = (λ h. absurd (cc h), λ h. absurd h)
winners-Voted_iff r (votes ∷ rest) = elim (Option-cases (top_vote votes)) [
  | inl e ↦
      rw (e, add_winner)
        (
          λ h. inr ((winners-Voted_iff r rest).0 h),
          λ h. elim h [ inl k ↦ absurd (cc k) | inr w ↦ (winners-Voted_iff r rest).1 w ],
        )
  | inr (q, e) ↦ rw (e, add_winner) (added_iff q r _ (winners-Voted_iff r rest))
]

human_count-map :
    (winners known : List Str) (r : Str)
    → exists (str_eq r) known ≡ true
    → human_count r (map (λ x. (x, if exists (str_eq x) winners then 1 else 0)) known)
      ≡ some (if exists (str_eq r) winners then 1 else 0)
human_count-map winners [] r h = cc
human_count-map winners (x ∷ known) r h = elim (Bool-cases (str_eq r x)) [
  | inl t ↦ let same : r ≡ x = (str_eq_iff r x).0 t in rw (t, same)
  | inr f ↦ rw f (human_count-map winners known r (rw f at h))
]

keys-map :
    (winners known : List Str)
    → map
        (λ e. e.0)
        (map (λ x. let e : Str × ℕ = (x, if exists (str_eq x) winners then 1 else 0) in e) known)
      ≡ known
keys-map winners [] = refl
keys-map winners (x ∷ known) = ap (◌∷◌ x) (keys-map winners known)

occurrences_own : (r : Str) (rs : List Str) → 0 < occurrences r (r ∷ rs)
occurrences_own r rs = ground (arith, str_eq_refl r)

top_vote-Heads : (r : Str) (votes : List Str) → top_vote votes ≡ some r → Heads r votes
unfolding top_vote counter_from
top_vote-Heads r [] e = absurd (cc e)
top_vote-Heads r (q ∷ rest) e =
    let most = top_vote-most (q ∷ rest) r e in (omega (arith, occurrences_own q rest, most q), most)

top_vote-some : (votes : List Str) → 0 < length votes → (r : Str) × (top_vote votes ≡ some r)
top_vote-some votes h = elim (Option-cases (top_vote votes)) [
  | inl e ↦ absurd (omega (arith, ap length (top_vote-none votes e)))
  | inr found ↦ found
]

listed : (r : Str) (known : List Str) → Mem r known → exists (str_eq r) known ≡ true
listed r known m =
    (exists-mem_iff r (str_eq r)
        (λ x. (λ h. sym ((str_eq_iff r x).0 h), λ e. (str_eq_iff r x).1 (sym e))) known).1
      m

-- The published object lists the model's rooms in order. There is a choice of a room for each vote
-- history, which chooses for every history with votes in it, and chooses only rooms that head the
-- history, such that a listed room shows one person if it is the choice for the history of some
-- receiver, and nobody otherwise.
pub aggregate-Wins :
    (votes : List (List Str)) (known : List Str)
    → (map (λ e. e.0) (aggregate votes known) ≡ known)
      × (choice : List Str → Option Str) × ((v : List Str) (r : Str)
          → choice v ≡ some r
          → Heads r v)
      × ((v : List Str) → 0 < length v → (r : Str) × (choice v ≡ some r))
      × ((r : Str)
          → Mem r known
          → (Some (λ v. choice v ≡ some r) votes → human_count r (aggregate votes known) ≡ some 1)
            × ((¬ Some (λ v. choice v ≡ some r) votes)
                → human_count r (aggregate votes known) ≡ some 0))
unfolding aggregate
aggregate-Wins votes known = (
  keys-map (winners_of votes) known,
  top_vote,
  (λ v r. top_vote-Heads r v),
  top_vote-some,
  counts,
)
  where
    counts :
        (r : Str)
        → Mem r known
        → (Voted r votes → human_count r (aggregate votes known) ≡ some 1)
          × ((¬ Voted r votes) → human_count r (aggregate votes known) ≡ some 0)
    counts r m =
        let e = human_count-map (winners_of votes) known r (listed r known m) in
        (
          λ w. e ∙ rw ((winners-Voted_iff r votes).1 w),
          λ n. elim (Bool-cases (exists (str_eq r) (winners_of votes))) [
            | inl t ↦ absurd (n ((winners-Voted_iff r votes).0 t))
            | inr f ↦ e ∙ rw f
          ],
        )
