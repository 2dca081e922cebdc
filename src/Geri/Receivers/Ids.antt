-- ===== src/Geri/Receivers/Ids.antt =====
-- The ids of the receivers: each name keeps its id, and no two names share one.
use grimnir.Base.{
  ℕ, suc, ◌≤◌, ◌≡◌, refl, ap, sym, ◌∙◌, ◌↔◌, inl, inr, Bool, true, Option, none, some, List, [],
  ◌∷◌, ◌++◌, arith, Bool-cases, Option-cases, if◌then◌else◌, Str, str_eq, str_eq_iff, str_eq_refl,
  update, exists,
}
use grimnir.Geri.Receivers.Defs.{
  Receiver, Receivers, id_of, new_receiver, upsert_receiver, receiver_mac,
  get_or_create_receiver_id,
}

-- The ids increase from `lo` on and stay below `hi`.
abbrev IdsWithin : ℕ → ℕ → List Receiver → Type 0
IdsWithin lo hi [] = lo ≤ hi
IdsWithin lo hi (r ∷ rows) = (lo ≤ r.id) × IdsWithin (suc r.id) hi rows

-- The ids increase and stay below the next one.
abbrev pub Numbered : Receivers → Type 0
Numbered t = IdsWithin 0 t.next_id t.rows

-- What has an id keeps it.
abbrev pub Keeps : Receivers → Receivers → Type 0
Keeps t u = (name : Str) (i : ℕ) → id_of name t.rows ≡ some i → id_of name u.rows ≡ some i

IdsWithin-grow :
    (lo hi : ℕ) (rows : List Receiver) → IdsWithin lo hi rows → IdsWithin lo (suc hi) rows
IdsWithin-grow lo hi [] h = omega arith
IdsWithin-grow lo hi (r ∷ rows) h = (h.0, IdsWithin-grow (suc r.id) hi rows h.1)

IdsWithin-append :
    (lo : ℕ) (rows : List Receiver) (r : Receiver)
    → IdsWithin lo r.id rows
    → IdsWithin lo (suc r.id) (rows ++ (r ∷ []))
IdsWithin-append lo [] r h = (h, omega arith)
IdsWithin-append lo (x ∷ rows) r h = (h.0, IdsWithin-append (suc x.id) rows r h.1)

IdsWithin-update :
    (lo hi : ℕ) (p : Receiver → Bool) (rows : List Receiver)
    → IdsWithin lo hi rows
    → IdsWithin lo hi (update p (λ r. record r { active = true }) rows)
IdsWithin-update lo hi p [] h = h
IdsWithin-update lo hi p (r ∷ rows) h = elim (Bool-cases (p r)) [
  | inl t ↦ rw t (h.0, IdsWithin-update (suc r.id) hi p rows h.1)
  | inr f ↦ rw f (h.0, IdsWithin-update (suc r.id) hi p rows h.1)
]

id_of-ge :
    (lo hi : ℕ) (name : Str) (i : ℕ) (rows : List Receiver)
    → IdsWithin lo hi rows
    → id_of name rows ≡ some i
    → lo ≤ i
id_of-ge lo hi name i [] h e = absurd (cc e)
id_of-ge lo hi name i (r ∷ rows) h e = ground (arith, id_of-ge (suc r.id) hi name i rows h.1)

-- No two names have one id.
id_of-distinct :
    (lo hi : ℕ) (a b : Str) (i : ℕ) (rows : List Receiver)
    → IdsWithin lo hi rows
    → id_of a rows ≡ some i
    → id_of b rows ≡ some i
    → a ≡ b
id_of-distinct lo hi a b i [] h ea eb = absurd (cc ea)
id_of-distinct lo hi a b i (r ∷ rows) h ea eb = elim (Bool-cases (str_eq r.name a)) [
  | inl ta ↦ elim (Bool-cases (str_eq r.name b)) [
    | inl tb ↦ sym ((str_eq_iff r.name a).0 ta) ∙ (str_eq_iff r.name b).0 tb
    | inr fb ↦
        let here : r.id ≡ i = cc (rw ta at ea) in
        let there = id_of-ge (suc r.id) hi b i rows h.1 (rw fb at eb) in
        absurd (omega (arith, here, there))
  ]
  | inr fa ↦ elim (Bool-cases (str_eq r.name b)) [
    | inl tb ↦
        let here : r.id ≡ i = cc (rw tb at eb) in
        let there = id_of-ge (suc r.id) hi a i rows h.1 (rw fa at ea) in
        absurd (omega (arith, here, there))
    | inr fb ↦ id_of-distinct (suc r.id) hi a b i rows h.1 (rw fa at ea) (rw fb at eb)
  ]
]

id_of-update :
    (name : Str) (p : Receiver → Bool) (rows : List Receiver)
    → id_of name (update p (λ r. record r { active = true }) rows) ≡ id_of name rows
id_of-update name p [] = refl
id_of-update name p (r ∷ rows) = elim (Bool-cases (p r)) [
  | inl t ↦ rw t (ap (λ x. if str_eq r.name name then some r.id else x) (id_of-update name p rows))
  | inr f ↦ rw f (ap (λ x. if str_eq r.name name then some r.id else x) (id_of-update name p rows))
]

id_of-append_some :
    (name : Str) (i : ℕ) (rows : List Receiver) (r : Receiver)
    → id_of name rows ≡ some i
    → id_of name (rows ++ (r ∷ [])) ≡ some i
id_of-append_some name i [] r e = absurd (cc e)
id_of-append_some name i (x ∷ rows) r e = ground (arith, id_of-append_some name i rows r)

id_of-append_new :
    (rows : List Receiver) (r : Receiver)
    → id_of r.name rows ≡ none
    → id_of r.name (rows ++ (r ∷ [])) ≡ some r.id
id_of-append_new [] r e = rw (str_eq_refl r.name) refl
id_of-append_new (x ∷ rows) r e = ground (arith, id_of-append_new rows r)

-- What a call does: the table stays numbered, ids are kept, and the answer is the id of the name.
pub record Served (name : Str) (t : Receivers) (x : Option ℕ × Receivers) : Type 0 where
  pub numbered : Numbered x.1
  pub keeps : Keeps t x.1
  pub answers : (i : ℕ) → x.0 ≡ some i → id_of name x.1.rows ≡ some i

upsert_receiver-Served :
    (mac name : Str) (now : ℕ) (t : Receivers) (o : Option ℕ)
    → Numbered t
    → id_of name t.rows ≡ o
    → Served name t (upsert_receiver mac name now t o)
upsert_receiver-Served mac name now t (some id) h e = record {
  numbered = IdsWithin-grow 0 t.next_id _ (IdsWithin-update 0 t.next_id _ t.rows h);
  keeps = λ n i e'. id_of-update n _ t.rows ∙ e';
  answers = λ i e'. id_of-update name _ t.rows ∙ e ∙ e';
}
upsert_receiver-Served mac name now t none h e =
    elim (Bool-cases (exists (λ r. str_eq r.mac mac) t.rows)) [
      | inl taken ↦ rw taken (record {
        numbered = IdsWithin-grow 0 t.next_id t.rows h;
        keeps = λ n i e'. e';
        answers = λ i e'. absurd (cc e');
      })
      | inr free ↦ rw free (record {
        numbered = IdsWithin-append 0 t.rows (new_receiver t.next_id mac name now) h;
        keeps = λ n i e'. id_of-append_some n i t.rows (new_receiver t.next_id mac name now) e';
        answers = λ i e'. id_of-append_new t.rows (new_receiver t.next_id mac name now) e ∙ e';
      })
    ]

get_or_create_receiver_id-Served :
    (sha256 : Str → List ℕ) (name : Str) (now : ℕ) (others : Receivers → Receivers) (t : Receivers)
    → Numbered t
    → Numbered (others t)
    → Keeps t (others t)
    → Served name t (get_or_create_receiver_id sha256 name now others t)
unfolding get_or_create_receiver_id
get_or_create_receiver_id-Served sha256 name now others t h h' k =
    elim (Option-cases (id_of name t.rows)) [
      | inl new ↦
          let s =
            upsert_receiver-Served (receiver_mac sha256 name) name now (others t)
              (id_of name (others t).rows) h' refl in
          rw new (record {
            numbered = s.numbered;
            keeps = λ n i e. s.keeps n i (k n i e);
            answers = s.answers;
          })
      | inr (id, found) ↦
          rw found (record { numbered = h; keeps = λ n i e. e; answers = λ i e. found ∙ e })
    ]

-- Ids stand for names: in a table whose ids increase, and whatever other sessions do as long as they
-- keep that and the ids given, two calls are answered with one id exactly if they are for one name.
pub get_or_create_receiver_id-same_iff :
    (sha256 : Str → List ℕ) (a b : Str) (now now' : ℕ) (others others' : Receivers → Receivers)
    (t u : Receivers) (i j : ℕ)
    → Numbered t
    → Numbered (others t)
    → Keeps t (others t)
    → (get_or_create_receiver_id sha256 a now others t).0 ≡ some i
    → Keeps (get_or_create_receiver_id sha256 a now others t).1 u
    → Numbered u
    → Numbered (others' u)
    → Keeps u (others' u)
    → (get_or_create_receiver_id sha256 b now' others' u).0 ≡ some j
    → (i ≡ j) ↔ (a ≡ b)
get_or_create_receiver_id-same_iff sha256 a b now now' others others' t u i j h ho k first between
      h2 ho2 k2 second =
    let s = get_or_create_receiver_id-Served sha256 a now others t h ho k in
    let s2 = get_or_create_receiver_id-Served sha256 b now' others' u h2 ho2 k2 in
    let v = (get_or_create_receiver_id sha256 b now' others' u).1 in
    let here : id_of a v.rows ≡ some i = s2.keeps a i (between a i (s.answers i first)) in
    let there : id_of b v.rows ≡ some j = s2.answers j second in
    (
      λ e. id_of-distinct 0 v.next_id a b i v.rows s2.numbered here (there ∙ ap some (sym e)),
      λ e. cc (here, there, e),
    )
