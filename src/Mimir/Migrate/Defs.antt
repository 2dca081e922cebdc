-- ===== src/Mimir/Migrate/Defs.antt =====
-- `run_migrations` and `_load_migrations`. `D` is what the SQL scripts work on; running a script,
-- SHA-256, the pattern of the file names and `int` are arguments.
use grimnir.Base.{
  ℕ, Bool, Option, none, some, List, [], ◌∷◌, ◌++◌, ltb, if◌then◌else◌, Str, str_eq, exists, lookup,
}

-- The database: its data, and the rows (version, checksum) of `schema_migrations`.
pub record Schema (D : Type 0) : Type 0 where
  pub contents : D
  pub migrations : List (Str × Str)

-- How a run ends: at the end of the list, at a checksum that differs, or at an exception of the
-- database.
pub data Migrated : Type 0 where
  finished : Migrated
  mismatch failed : Str → Migrated

-- An entry of the directory csi_models/sql.
pub record SqlFile : Type 0 where
  pub name : Str
  pub is_file : Bool
  pub text : Str

module _ {D : Type 0} (execute : Str → D → Option D) (checksum : Str → Str) where
  -- INSERT INTO schema_migrations and the commit; the version is the primary key.
  abbrev pub recorded : Str → Str → Schema D → Option D → Option (Schema D)
  recorded version sql s none = none
  recorded version sql s (some d) =
      if exists (λ (r : Str × Str). str_eq r.0 version) s.migrations
      then none
      else some
          (record { contents = d; migrations = s.migrations ++ ((version, checksum sql) ∷ []) })

  -- The rest of the loop after a script; after an exception all since the last commit is undone.
  abbrev pub committed_migration :
      (Schema D → Migrated × Schema D) → Str → Schema D → Option (Schema D) → Migrated × Schema D
  committed_migration next version s none = (failed version, s)
  committed_migration next version s (some s') = next s'

  -- A version that is recorded already is compared, and another is run.
  abbrev pub applied_or :
      (Schema D → Migrated × Schema D) → Str → Str → Schema D → Option Str → Migrated × Schema D
  applied_or next version sql s (some old) =
      if str_eq old (checksum sql) then next s else (mismatch version, s)
  applied_or next version sql s none =
      committed_migration next version s (recorded version sql s (execute sql s.contents))

  -- The loop over the migrations; `applied` is what the table held before it.
  unfoldable pub apply_migrations :
      List (Str × Str) → List (Str × Str) → Schema D → Migrated × Schema D
  apply_migrations applied [] s = (finished, s)
  apply_migrations applied ((version, sql) ∷ rest) s =
      let next = apply_migrations applied rest in
      applied_or next version sql s (lookup str_eq version applied)

  unfoldable pub run_migrations : List (Str × Str) → Schema D → Migrated × Schema D
  unfolding apply_migrations
  run_migrations migrations s = apply_migrations s.migrations migrations s

module _ (version_of : Str → Option Str) (int : Str → ℕ) where
  abbrev pub with_version : Option Str → Str → List (Str × Str) → List (Str × Str)
  with_version none text rest = rest
  with_version (some version) text rest = (version, text) ∷ rest

  -- The files whose names have the pattern.
  abbrev pub matching : List SqlFile → List (Str × Str)
  matching [] = []
  matching (f ∷ fs) =
      let rest = matching fs in
      if f.is_file then with_version (version_of f.name) f.text rest else rest

  abbrev pub insert_version : Str × Str → List (Str × Str) → List (Str × Str)
  insert_version m [] = m ∷ []
  insert_version m (x ∷ xs) =
      let rest = insert_version m xs in if ltb (int x.0) (int m.0) then x ∷ rest else m ∷ x ∷ xs

  -- `migrations.sort(key=lambda item: int(item[0]))`, which keeps the order of equal numbers.
  unfoldable pub sort_versions : List (Str × Str) → List (Str × Str)
  sort_versions [] = []
  sort_versions (m ∷ ms) = insert_version m (sort_versions ms)

  -- With no such file in the directory, the schema at the root of the source tree is taken; `none` is
  -- the exception when its name has not the pattern.
  abbrev pub or_source : List (Str × Str) → SqlFile → Option (List (Str × Str))
  or_source (m ∷ ms) source = some (sort_versions (m ∷ ms))
  or_source [] source = elim (version_of source.name) [
    | none ↦ none
    | some version ↦ some (sort_versions ((version, source.text) ∷ []))
  ]

  unfoldable pub load_migrations : List SqlFile → SqlFile → Option (List (Str × Str))
  unfolding sort_versions
  load_migrations directory source = or_source (matching directory) source
