-- ===== src/Freki/Rooms/Integrity.antt =====
-- The references between the tables of rooms.py, and requests that fail.
use grimnir.Base.{
  ℕ, ℤ, ◌≡◌, ◌↔◌, ◌⊎◌, refl, sym, ◌∙◌, inl, inr, Bool, true, false, not, ◌||◌, Option, none, some,
  List, [], ◌∷◌, ◌++◌, arith, Bool-cases, Str, str_eq, str_eq_iff, str_eq_refl, select, update,
  exists, All, All-imp,
}
use grimnir.Freki.Rooms.Defs.{
  Room, LabelRow, House, Rewrite, works, training_denied, db_error, named, created, valid_name,
  create_room, renamed, rewritten, flushed, wanted_name, checked_update, update_room, delete_room,
  or_old,
}

-- Every label's room is there.
abbrev pub Integral : House → Type 0
Integral h = All (λ (l : LabelRow). exists (named l.room) h.rooms ≡ true) h.labels

exists-append :
    (p : Room → Bool) (xs ys : List Room) → exists p xs ≡ true → exists p (xs ++ ys) ≡ true
exists-append p [] ys e = absurd (cc e)
exists-append p (x ∷ xs) ys e = ground (arith, exists-append p xs ys)

created-Integral :
    (o : Option Str) (floor : ℤ) (now : ℕ) (h : House)
    → Integral h
    → Integral (created o floor now h).1
created-Integral none floor now h i = i
created-Integral (some name) floor now h i = elim (Bool-cases (exists (named name) h.rooms)) [
  | inl t ↦ rw t i
  | inr f ↦ rw f (All-imp _ h.labels (λ l. exists-append (named l.room) h.rooms _) i)
]

or_right : (a b : Bool) → b ≡ true → (a || b) ≡ true
or_right a b e = ground arith

pub exists-new :
    (old_name new_name : Str) (floor : Option ℤ) (rooms : List Room)
    → exists (named old_name) rooms ≡ true
    → exists (named new_name) (
        update
          (named old_name)
          (λ r. record r { name = new_name; floor = or_old floor r.floor })
          rooms)
      ≡ true
exists-new old_name new_name floor [] e = absurd (cc e)
exists-new old_name new_name floor (r ∷ rooms) e = elim (Bool-cases (named old_name r)) [
  | inl t ↦ rw t (rw (str_eq_refl new_name) refl)
  | inr f ↦ rw f (ground (arith, exists-new old_name new_name floor rooms))
]

differs :
    {a b c : Str} {x y : Bool}
    → (x ≡ true) ↔ (a ≡ b)
    → (y ≡ true) ↔ (c ≡ a)
    → c ≡ b
    → x ≡ false
    → (y ≡ true) ⊎ (y ≡ false)
    → y ≡ false
differs p q here n (inl t) = absurd (cc (p.1 (sym (q.0 t) ∙ here), n))
differs p q here n (inr f) = f

exists-other :
    (name old_name new_name : Str) (floor : Option ℤ) (rooms : List Room)
    → str_eq name old_name ≡ false
    → exists (named name) rooms ≡ true
    → exists (named name) (
        update
          (named old_name)
          (λ r. record r { name = new_name; floor = or_old floor r.floor })
          rooms)
      ≡ true
exists-other name old_name new_name floor [] n e = absurd (cc e)
exists-other name old_name new_name floor (r ∷ rooms) n e = elim (Bool-cases (named old_name r)) [
  | inl t ↦
      let here : r.name ≡ old_name = (str_eq_iff r.name old_name).0 t in
      let miss : named name r ≡ false =
        differs (str_eq_iff name old_name) (str_eq_iff r.name name) here n
          (Bool-cases (named name r)) in
      rw t (
        or_right (str_eq new_name name) _
          (exists-other name old_name new_name floor rooms n (rw miss at e)))
  | inr f ↦ rw f (ground (arith, exists-other name old_name new_name floor rooms))
]

renamed-Integral :
    (old_name new_name : Str) (floor : Option ℤ) (h : House)
    → exists (named old_name) h.rooms ≡ true
    → Integral h
    → Integral (renamed old_name new_name floor h)
renamed-Integral old_name new_name floor h here i = go h.labels i
  where
    go :
        (ls : List LabelRow)
        → All (λ (l : LabelRow). exists (named l.room) h.rooms ≡ true) ls
        → All
            (λ (l : LabelRow).
              exists (named l.room) (renamed old_name new_name floor h).rooms ≡ true)
            (update (λ l. str_eq l.room old_name) (λ l. record l { room = new_name }) ls)
    go [] a = tt
    go (l ∷ ls) a = elim (Bool-cases (str_eq l.room old_name)) [
      | inl t ↦ rw t (exists-new old_name new_name floor h.rooms here, go ls a.1)
      | inr f ↦ rw f (exists-other l.room old_name new_name floor h.rooms f a.0, go ls a.1)
    ]

flushed-Integral :
    (rewrite : Rewrite) (old_name new_name : Str) (floor : Option ℤ) (h : House)
    → exists (named old_name) h.rooms ≡ true
    → Integral h
    → Integral (flushed rewrite old_name new_name floor h).1
flushed-Integral rewrite old_name new_name floor h here i =
    elim (Bool-cases (str_eq new_name old_name)) [
      | inl t ↦ rw t (renamed-Integral old_name new_name floor h here i)
      | inr f ↦ elim (Bool-cases (exists (named new_name) h.rooms)) [
        | inl u ↦ rw f (rw u i)
        | inr u ↦ rw f (rw u (after rewrite))
      ]
    ]
  where
    after :
        (w : Rewrite)
        → Integral (rewritten w old_name new_name h (renamed old_name new_name floor h)).1
    after works = renamed-Integral old_name new_name floor h here i
    after training_denied = renamed-Integral old_name new_name floor h here i
    after db_error = i

update_room-Integral :
    (is_space : ℕ → Bool) (rewrite : Rewrite) (room_name : Str) (name : Option Str)
    (floor : Option ℤ) (h : House)
    → Integral h
    → Integral (update_room is_space rewrite room_name name floor h).1
unfolding update_room
update_room-Integral is_space rewrite room_name name floor h i =
    body (wanted_name is_space name room_name)
  where
    body : (o : Option Str) → Integral (checked_update o rewrite room_name floor h).1
    body none = i
    body (some new_name) = elim (Bool-cases (exists (named room_name) h.rooms)) [
      | inl t ↦ rw t (flushed-Integral rewrite room_name new_name floor h t i)
      | inr f ↦ rw f i
    ]

exists-kept :
    (name gone : Str) (rooms : List Room)
    → str_eq name gone ≡ false
    → exists (named name) rooms ≡ true
    → exists (named name) (select (λ r. not (named gone r)) rooms) ≡ true
exists-kept name gone [] n e = absurd (cc e)
exists-kept name gone (r ∷ rooms) n e = elim (Bool-cases (named gone r)) [
  | inl t ↦
      let here : r.name ≡ gone = (str_eq_iff r.name gone).0 t in
      let miss : named name r ≡ false =
        differs (str_eq_iff name gone) (str_eq_iff r.name name) here n
          (Bool-cases (named name r)) in
      rw t (exists-kept name gone rooms n (rw miss at e))
  | inr f ↦ rw f (ground (arith, exists-kept name gone rooms n))
]

delete_room-Integral :
    (room_name : Str) (h : House) → Integral h → Integral (delete_room room_name h).1
unfolding delete_room
delete_room-Integral room_name h i = elim (Bool-cases (exists (named room_name) h.rooms)) [
  | inl t ↦ elim (Bool-cases (exists (λ l. str_eq l.room room_name) h.labels)) [
    | inl u ↦ rw t (rw u i)
    | inr u ↦ rw t (rw u (go h.labels u i))
  ]
  | inr f ↦ rw f i
]
  where
    go :
        (ls : List LabelRow)
        → exists (λ l. str_eq l.room room_name) ls ≡ false
        → All (λ (l : LabelRow). exists (named l.room) h.rooms ≡ true) ls
        → All
            (λ (l : LabelRow).
              exists (named l.room) (select (λ r. not (named room_name r)) h.rooms) ≡ true)
            ls
    go [] u a = tt
    go (l ∷ ls) u a =
        (exists-kept l.room room_name h.rooms (ground arith) a.0, go ls (ground arith) a.1)

-- If every label's room is there, it still is after a room is created, changed or deleted, whatever
-- the outcome of the request.
pub rooms-Integral :
    (is_space : ℕ → Bool) (rewrite : Rewrite) (room_name new_room : Str) (name : Option Str)
    (floor : Option ℤ) (level : ℤ) (now : ℕ) (h : House)
    → Integral h
    → Integral (create_room is_space new_room level now h).1
      × Integral (update_room is_space rewrite room_name name floor h).1
      × Integral (delete_room room_name h).1
unfolding create_room
rooms-Integral is_space rewrite room_name new_room name floor level now h i = (
  created-Integral (valid_name is_space new_room) level now h i,
  update_room-Integral is_space rewrite room_name name floor h i,
  delete_room-Integral room_name h i,
)
