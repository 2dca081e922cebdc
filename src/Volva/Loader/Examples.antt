-- ===== src/Volva/Loader/Examples.antt =====
-- A loader at feature version 1, where a classifier is the bytes it was loaded from.
use grimnir.Base.{ℕ, ◌≡◌, refl, Option, some, List, [], ◌∷◌, Str, codes}
use grimnir.Volva.Loader.Defs.{
  Response, response, Meta, LoadedModel, Fetched, fetched, http_error, load_error, str_lt, sorted,
  fetch_active, refresh, refresh_loop,
}
use grimnir.Volva.Loader.Refresh.{Usable, fetch_active-Usable}

abbrev meta : ℕ → Meta
meta version = record { id = 4; name = codes "forest"; version = version; created_at = 9 }

abbrev load : List ℕ → Option (List ℕ)
load content = some content

abbrev class_names : List ℕ → Option (List Str)
class_names clf = some (codes "hall" ∷ codes "den" ∷ [])

abbrev blob : ℕ → Response (List ℕ)
blob i = response 200 (some (i ∷ []))

abbrev forest : LoadedModel (List ℕ)
forest = record {
  id = 4;
  name = codes "forest";
  classifier = 4 ∷ [];
  version = 1;
  classes = codes "den" ∷ codes "hall" ∷ [];
  created_at = 9;
}

program : Unit {0}
unfolding str_lt sorted fetch_active refresh refresh_loop
program = tt

fetched_run :
    fetch_active 1 load class_names (response 200 (some (meta 1))) blob ≡ fetched (some forest)
unfolding program
fetched_run = refl

other_version : fetch_active 1 load class_names (response 200 (some (meta 2))) blob ≡ load_error
unfolding program
other_version = refl

fetch_active-Usable_example : Usable 1 load class_names blob forest
fetch_active-Usable_example =
    fetch_active-Usable 1 load class_names (response 200 (some (meta 1))) blob forest fetched_run

abbrev turns : List (Fetched (List ℕ))
turns = fetched (some forest) ∷ http_error ∷ load_error ∷ []
