-- ===== src/Freki/Rooms/Atomic.antt =====
-- What a change of a room (`update_room` of freki/src/freki/routers/rooms.py) leaves when it fails.
use grimnir.Base.{
  ℕ, ℤ, ◌≡◌, refl, inl, inr, Bool, true, Option, none, some, List, [], ◌∷◌, Bool-cases, Str, str_eq,
  exists, Reply, ok, http,
}
use grimnir.Freki.Rooms.Defs.{
  Room, House, Rewrite, works, training_denied, db_error, named, found_room, reply_with, renamed,
  rewritten, flushed, wanted_name, checked_update, update_room,
}
use grimnir.Freki.Rooms.Integrity.{exists-new}

found_room-exists :
    (name : Str) (rooms : List Room)
    → exists (named name) rooms ≡ true
    → (r : Room) × (found_room name rooms ≡ ok r)
found_room-exists name [] e = absurd (cc e)
found_room-exists name (r ∷ rooms) e = elim (Bool-cases (named name r)) [
  | inl t ↦ (r, rw t refl)
  | inr f ↦ let (q, found) = found_room-exists name rooms (rw f at e) in (q, rw f found)
]

-- The request changed nothing, or answered with a room.
abbrev pub Settled : House → Reply Room × House → Type 0
Settled h (ok r, h') = Unit
Settled h (http code, h') = h' ≡ h

reply_with-Settled :
    (name : Str) (h h' : House)
    → exists (named name) h'.rooms ≡ true
    → Settled h (reply_with name h')
reply_with-Settled name h h' e = let (r, found) = found_room-exists name h'.rooms e in rw found tt

flushed-Settled :
    (rewrite : Rewrite) (old_name new_name : Str) (floor : Option ℤ) (h : House)
    → exists (named old_name) h.rooms ≡ true
    → Settled h (flushed rewrite old_name new_name floor h)
flushed-Settled rewrite old_name new_name floor h here =
    elim (Bool-cases (str_eq new_name old_name)) [
      | inl t ↦
          rw t (reply_with-Settled new_name h _ (exists-new old_name new_name floor h.rooms here))
      | inr f ↦ elim (Bool-cases (exists (named new_name) h.rooms)) [
        | inl u ↦ rw f (rw u refl)
        | inr u ↦ rw f (rw u (after rewrite))
      ]
    ]
  where
    after :
        (w : Rewrite)
        → Settled h (rewritten w old_name new_name h (renamed old_name new_name floor h))
    after works = reply_with-Settled new_name h _ (exists-new old_name new_name floor h.rooms here)
    after training_denied =
        reply_with-Settled new_name h _ (exists-new old_name new_name floor h.rooms here)
    after db_error = refl

-- A change of a room that is answered with an error leaves all the tables as they were.
pub update_room-Settled :
    (is_space : ℕ → Bool) (rewrite : Rewrite) (room_name : Str) (name : Option Str)
    (floor : Option ℤ) (h : House)
    → Settled h (update_room is_space rewrite room_name name floor h)
unfolding update_room
update_room-Settled is_space rewrite room_name name floor h =
    body (wanted_name is_space name room_name)
  where
    body : (o : Option Str) → Settled h (checked_update o rewrite room_name floor h)
    body none = refl
    body (some new_name) = elim (Bool-cases (exists (named room_name) h.rooms)) [
      | inl t ↦ rw t (flushed-Settled rewrite room_name new_name floor h t)
      | inr f ↦ rw f refl
    ]
