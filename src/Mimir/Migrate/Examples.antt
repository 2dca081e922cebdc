-- ===== src/Mimir/Migrate/Examples.antt =====
-- Runs of the migrations, and their theorems at a concrete database.
use grimnir.Base.{
  ◌≡◌, refl, true, Option, none, some, List, [], ◌∷◌, ◌++◌, ◌==◌, if◌then◌else◌, Str, codes, str_eq,
  length,
}
use grimnir.Mimir.Migrate.Defs.{
  Schema, SqlFile, finished, mismatch, failed, apply_migrations, run_migrations, load_migrations,
  sort_versions,
}
use grimnir.Mimir.Migrate.Runs.{Stopped, pending, run_migrations-Stopped, run_migrations-again}

-- A database that logs its scripts and fails at the script `boom`.
abbrev execute : Str → List Str → Option (List Str)
execute sql log = if str_eq sql (codes "boom") then none else some (log ++ (sql ∷ []))

abbrev checksum : Str → Str
checksum sql = codes "sum of " ++ sql

abbrev scripts : List (Str × Str)
scripts = (codes "001", codes "schema") ∷ (codes "002", codes "index") ∷ []

abbrev broken : List (Str × Str)
broken = (codes "001", codes "schema") ∷ (codes "002", codes "boom") ∷ []

abbrev fresh : Schema (List Str)
fresh = record { contents = []; migrations = [] }

abbrev first_done : Schema (List Str)
first_done = record {
  contents = codes "schema" ∷ [];
  migrations = (codes "001", checksum (codes "schema")) ∷ [];
}

abbrev both_done : Schema (List Str)
both_done = record {
  contents = codes "schema" ∷ codes "index" ∷ [];
  migrations =
      (codes "001", checksum (codes "schema")) ∷ (codes "002", checksum (codes "index")) ∷ [];
}

-- A name that is not empty is its own version, and its length is the number.
abbrev version_of : Str → Option Str
version_of name = if length name == 0 then none else some name

program : Unit {0}
unfolding run_migrations apply_migrations load_migrations sort_versions str_eq
program = tt

broken_run : run_migrations execute checksum broken fresh ≡ (failed (codes "002"), first_done)
unfolding program
broken_run = refl

whole_run : run_migrations execute checksum scripts first_done ≡ (finished, both_done)
unfolding program
whole_run = refl

-- A changed script stops the run.
changed_run :
    run_migrations execute checksum ((codes "001", codes "other") ∷ []) first_done
    ≡ (mismatch (codes "001"), first_done)
unfolding program
changed_run = refl

abbrev file : Str → SqlFile
file name = record { name = name; is_file = true; text = name }

sorted_run :
    load_migrations version_of length
      (file (codes "aa") ∷ file [] ∷ file (codes "b") ∷ [])
      (file [])
    ≡ some ((codes "b", codes "b") ∷ (codes "aa", codes "aa") ∷ [])
unfolding program
sorted_run = refl

run_migrations-Stopped_example :
    Stopped execute checksum
      (pending execute checksum fresh.migrations broken)
      fresh
      (run_migrations execute checksum broken fresh)
run_migrations-Stopped_example = run_migrations-Stopped execute checksum broken fresh

run_migrations-again_example :
    run_migrations execute checksum scripts both_done ≡ (finished, both_done)
run_migrations-again_example =
    run_migrations-again execute checksum scripts first_done both_done whole_run
