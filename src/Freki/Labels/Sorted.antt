-- ===== src/Freki/Labels/Sorted.antt =====
-- The order in which `delete_label` re-applies the surviving labels, and which of them has the last
-- word on a moment (freki/src/freki/routers/labels.py).
use grimnir.Base.{
  ℕ, ◌≡◌, refl, subst, ◌⊎◌, inl, inr, Bool, true, false, ◌&&◌, Option, none, some, List, [], ◌∷◌,
  arith, ltb, leb, if◌then◌else◌, Bool-cases, Str, select, All, All-imp,
}
use grimnir.Freki.Labels.Defs.{Label, label_before, insert_label, order_labels}

abbrev pub Among : Label → List Label → Type 0
Among l [] = ⊥
Among l (x ∷ xs) = (x ≡ l) ⊎ Among l xs

abbrev pub covers : ℕ → Label → Bool
covers t l = leb l.time_start t && ltb t l.time_end

-- Whether a label has the last word at `t`: no label that covers `t` comes after it.
abbrev pub IsLast : ℕ → List Label → Label → Type 0
IsLast t ls l = All (λ m. covers t m ≡ true → label_before l m ≡ false) ls

-- What the labels say of a moment: nothing when none covers it, else the room of the last one that does.
abbrev pub Shows : List Label → ℕ → Option Str → Type 0
Shows ls t o =
    (All (λ m. covers t m ≡ false) ls × (o ≡ none))
    ⊎ ((l : Label) × Among l ls × (covers t l ≡ true) × (o ≡ some l.room) × IsLast t ls l)

abbrev pub Ordered : List Label → Type 0
Ordered [] = Unit
Ordered (l ∷ ls) = All (λ m. label_before m l ≡ false) ls × Ordered ls

All-insert_label :
    (P : Label → Type 0) (l : Label) (ls : List Label) → P l → All P ls → All P (insert_label l ls)
All-insert_label P l [] p h = (p, tt)
All-insert_label P l (x ∷ xs) p h = elim (Bool-cases (label_before x l)) [
  | inl t ↦ rw t (h.0, All-insert_label P l xs p h.1)
  | inr f ↦ rw f (p, h)
]

label_before_asym : (a b : Label) → label_before a b ≡ true → label_before b a ≡ false
label_before_asym a b h = ground arith

label_before_trans :
    (a b c : Label) → label_before b a ≡ false → label_before c b ≡ false → label_before c a ≡ false
label_before_trans a b c h k = ground arith

insert_label-Ordered : (l : Label) (ls : List Label) → Ordered ls → Ordered (insert_label l ls)
insert_label-Ordered l [] h = (tt, tt)
insert_label-Ordered l (x ∷ xs) h = elim (Bool-cases (label_before x l)) [
  | inl t ↦ rw t (
    All-insert_label (λ m. label_before m x ≡ false) l xs (label_before_asym x l t) h.0,
    insert_label-Ordered l xs h.1,
  )
  | inr f ↦
      rw f
        ((f, All-imp (λ m. label_before m l ≡ false) xs (λ m. label_before_trans l x m f) h.0), h)
]

pub order_labels-Ordered : (ls : List Label) → Ordered (order_labels ls)
unfolding order_labels
order_labels-Ordered [] = tt
order_labels-Ordered (l ∷ ls) = insert_label-Ordered l _ (order_labels-Ordered ls)

All-insert_label_inv :
    (P : Label → Type 0) (l : Label) (ls : List Label) → All P (insert_label l ls) → P l × All P ls
All-insert_label_inv P l [] h = h
All-insert_label_inv P l (x ∷ xs) h = go (label_before x l) (All-insert_label_inv P l xs) h
  where
    go :
        (b : Bool)
        → (All P (insert_label l xs) → P l × All P xs)
        → All P (if b then x ∷ insert_label l xs else l ∷ x ∷ xs)
        → P l × All P (x ∷ xs)
    go true rec k = let (p, rest) = rec k.1 in (p, (k.0, rest))
    go false rec k = k

pub All-order_labels_inv :
    (P : Label → Type 0) (ls : List Label) → All P (order_labels ls) → All P ls
unfolding order_labels
All-order_labels_inv P [] h = h
All-order_labels_inv P (l ∷ ls) h =
    let (p, rest) = All-insert_label_inv P l (order_labels ls) h in
    (p, All-order_labels_inv P ls rest)

Among-insert_label :
    (k l : Label) (ls : List Label) → Among k (insert_label l ls) → (l ≡ k) ⊎ Among k ls
Among-insert_label k l [] h = h
Among-insert_label k l (x ∷ xs) h = go (label_before x l) (Among-insert_label k l xs) h
  where
    go :
        (b : Bool)
        → (Among k (insert_label l xs) → (l ≡ k) ⊎ Among k xs)
        → Among k (if b then x ∷ insert_label l xs else l ∷ x ∷ xs)
        → (l ≡ k) ⊎ Among k (x ∷ xs)
    go true rec (inl e) = inr (inl e)
    go true rec (inr m) = elim (rec m) [ inl e ↦ inl e | inr r ↦ inr (inr r) ]
    go false rec m = m

pub Among-order_labels : (k : Label) (ls : List Label) → Among k (order_labels ls) → Among k ls
unfolding order_labels
Among-order_labels k [] h = h
Among-order_labels k (l ∷ ls) h = elim (Among-insert_label k l (order_labels ls) h) [
  | inl e ↦ inl e
  | inr m ↦ inr (Among-order_labels k ls m)
]

pub Among-select :
    (p : Label → Bool) (k : Label) (ls : List Label) → Among k (select p ls) → Among k ls
Among-select p k [] h = h
Among-select p k (x ∷ xs) h = go (p x) (Among-select p k xs) h
  where
    go :
        (b : Bool)
        → (Among k (select p xs) → Among k xs)
        → Among k (if b then x ∷ select p xs else select p xs)
        → Among k (x ∷ xs)
    go true rec (inl e) = inl e
    go true rec (inr m) = inr (rec m)
    go false rec m = inr (rec m)

-- What holds of the rows that pass, and of the others, holds of all.
pub All-select_inv :
    (P : Label → Type 0) (p : Label → Bool) (ls : List Label)
    → ((l : Label) → p l ≡ false → P l)
    → All P (select p ls)
    → All P ls
All-select_inv P p [] other h = tt
All-select_inv P p (x ∷ xs) other h = go (p x) refl (All-select_inv P p xs other) h
  where
    go :
        (b : Bool)
        → p x ≡ b
        → (All P (select p xs) → All P xs)
        → All P (if b then x ∷ select p xs else select p xs)
        → All P (x ∷ xs)
    go true e rec k = (k.0, rec k.1)
    go false e rec k = (other x e, rec k)

-- The last of the labels that cover `t`, applied one after another to `cur`.
abbrev pub shown : ℕ → List Label → Option Str → Option Str
shown t [] cur = cur
shown t (l ∷ ls) cur = shown t ls (if covers t l then some l.room else cur)

before_self : (l : Label) → label_before l l ≡ false
before_self l = ground arith

All-Among : (P : Label → Type 0) (k : Label) (ls : List Label) → All P ls → Among k ls → P k
All-Among P k [] h a = absurd a
All-Among P k (x ∷ xs) h (inl e) = subst P e h.0
All-Among P k (x ∷ xs) h (inr a) = All-Among P k xs h.1 a

-- What is left after applying them in order.
pub shown-IsLast :
    (t : ℕ) (ls : List Label) (cur : Option Str)
    → Ordered ls
    → (All (λ m. covers t m ≡ false) ls × (shown t ls cur ≡ cur))
      ⊎ ((l : Label) × Among l ls
          × (covers t l ≡ true)
          × (shown t ls cur ≡ some l.room)
          × IsLast t ls l)
shown-IsLast t [] cur o = inl (tt, refl)
shown-IsLast t (l ∷ ls) cur o = elim (Bool-cases (covers t l)) [
  | inl c ↦ rw c (elim (shown-IsLast t ls (some l.room) o.1) [
    | inl (no_one, e) ↦ inr (
      l,
      inl refl,
      c,
      e,
      ((λ _. before_self l), All-imp _ ls (λ m f. λ y. absurd (cc (f, y))) no_one),
    )
    | inr (k, among, y, e, last) ↦
        inr (k, inr among, y, e, ((λ _. All-Among _ k ls o.0 among), last))
  ])
  | inr c ↦ rw c (elim (shown-IsLast t ls cur o.1) [
    | inl (no_one, e) ↦ inl ((refl, no_one), e)
    | inr (k, among, y, e, last) ↦ inr (k, inr among, y, e, ((λ y'. absurd (cc y')), last))
  ])
]
