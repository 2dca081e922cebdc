-- ===== src/Freki/Rooms/Examples.antt =====
-- A house with one room in use.
use grimnir.Base.{ℕ, pos, ◌≡◌, refl, Bool, ◌==◌, some, none, [], ◌∷◌, str_eq, codes, ok, http}
use grimnir.Freki.Rooms.Defs.{Room, House, works, db_error, create_room, update_room, delete_room}
use grimnir.Freki.Rooms.Integrity.{Integral, rooms-Integral}
use grimnir.Freki.Rooms.Atomic.{Settled, update_room-Settled}

abbrev den : Room
den = record { name = codes "den"; floor = pos 0; created_at = 1 }

abbrev house : House
house = record {
  rooms = den ∷ [];
  labels = record { id = 1; room = codes "den" } ∷ [];
  csi_labels = some (codes "den") ∷ none ∷ [];
  training_labels = some (codes "den") ∷ [];
}

abbrev is_space : ℕ → Bool
is_space c = c == 0x20

program : Unit {0}
unfolding create_room update_room delete_room str_eq
program = tt

renamed_run : update_room is_space works (codes "den") (some (codes " office ")) none house ≡ (
  ok (record den { name = codes "office" }),
  record {
    rooms = record den { name = codes "office" } ∷ [];
    labels = record { id = 1; room = codes "office" } ∷ [];
    csi_labels = some (codes "office") ∷ none ∷ [];
    training_labels = some (codes "office") ∷ [];
  },
)
unfolding program
renamed_run = refl

in_use : delete_room (codes "den") house ≡ (http 409, house)
unfolding program
in_use = refl

house-Integral : Integral house
unfolding program
house-Integral = (refl, tt)

rooms-Integral_example :
    Integral (create_room is_space (codes "hall") (pos 1) 5 house).1
    × Integral (update_room is_space works (codes "den") (some (codes "office")) none house).1
    × Integral (delete_room (codes "den") house).1
rooms-Integral_example =
    rooms-Integral is_space works (codes "den") (codes "hall") (some (codes "office")) none (pos 1)
      5 house house-Integral

update_room-Settled_example :
    Settled house (update_room is_space db_error (codes "den") (some (codes "office")) none house)
update_room-Settled_example =
    update_room-Settled is_space db_error (codes "den") (some (codes "office")) none house
