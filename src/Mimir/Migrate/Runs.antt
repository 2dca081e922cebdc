-- ===== src/Mimir/Migrate/Runs.antt =====
-- Runs of the migrations: what one leaves in the database, and what the next one does.
use grimnir.Base.{
  ◌≡◌, refl, ap, sym, ◌∙◌, false, not, Option, none, some, List, [], ◌∷◌, ◌++◌, map, arith, inl,
  inr, Bool-cases, Option-cases, is_some, Str, str_eq, str_eq_iff, str_eq_refl, exists, lookup,
  select, All, ◌>>=◌,
}
use mathlib.Core.List.{append_assoc, append-nil}
use grimnir.Mimir.Migrate.Defs.{
  Schema, Migrated, finished, mismatch, failed, recorded, committed_migration, apply_migrations,
  run_migrations,
}

-- Rows of the table under a version.
lookup-append_some :
    (v c : Str) (t u : List (Str × Str))
    → lookup str_eq v t ≡ some c
    → lookup str_eq v (t ++ u) ≡ some c
lookup-append_some v c [] u e = absurd (cc e)
lookup-append_some v c (r ∷ t) u e = elim (Bool-cases (str_eq (r.0) v)) [
  | inl s ↦ rw s (rw s at e)
  | inr f ↦ rw f (lookup-append_some v c t u (rw f at e))
]

lookup-append_new :
    (v c : Str) (t : List (Str × Str))
    → exists (λ (r : Str × Str). str_eq r.0 v) t ≡ false
    → lookup str_eq v (t ++ ((v, c) ∷ [])) ≡ some c
lookup-append_new v c [] e = rw (str_eq_refl v) refl
lookup-append_new v c (r ∷ t) e = elim (Bool-cases (str_eq (r.0) v)) [
  | inl s ↦ absurd (cc (rw s at e))
  | inr f ↦ rw f (lookup-append_new v c t (rw f at e))
]

module _ {D : Type 0} (execute : Str → D → Option D) (checksum : Str → Str) where
  -- The scripts run one after the other.
  abbrev pub executed : List (Str × Str) → D → Option D
  executed [] d = some d
  executed (m ∷ ms) d = execute m.1 d >>= λ d'. executed ms d'

  -- The migrations whose versions the table has not.
  abbrev pub pending : List (Str × Str) → List (Str × Str) → List (Str × Str)
  pending applied = select (λ m. not (is_some (lookup str_eq m.0 applied)))

  abbrev pub row_of : Str × Str → Str × Str
  row_of m = (m.0, checksum m.1)

  -- `s'` is `s` after the scripts, each with its row.
  pub record After (scripts : List (Str × Str)) (s s' : Schema D) : Type 0 where
    pub contents_set : executed scripts s.contents ≡ some s'.contents
    pub rows_set : s'.migrations ≡ s.migrations ++ map row_of scripts

  -- What a run has done when it ends: some of the pending scripts from the first on, and all of them if
  -- it has finished.
  abbrev pub Stopped : List (Str × Str) → Schema D → Migrated × Schema D → Type 0
  Stopped todo s (out, s') =
      (scripts : List (Str × Str)) × (rest : List (Str × Str)) × (todo ≡ scripts ++ rest)
      × After scripts s s'
      × (out ≡ finished → rest ≡ [])

  Stopped-here :
      (todo : List (Str × Str)) (s : Schema D) (out : Migrated)
      → (out ≡ finished → todo ≡ [])
      → Stopped todo s (out, s)
  Stopped-here todo s out h =
      ([], todo, refl, record { contents_set = refl; rows_set = sym (append-nil s.migrations) }, h)

  recorded-cases :
      (version sql : Str) (s s' : Schema D) (o : Option D)
      → recorded execute checksum version sql s o ≡ some s'
      → (o ≡ some s'.contents)
        × (s'.migrations ≡ s.migrations ++ ((version, checksum sql) ∷ []))
        × (exists (λ (r : Str × Str). str_eq r.0 version) s.migrations ≡ false)
  recorded-cases version sql s s' none e = absurd (cc e)
  recorded-cases version sql s s' (some d) e = ground arith

  -- One more script before the rest of the run.
  Stopped-cons :
      (version sql : Str) (ms : List (Str × Str)) (s s' : Schema D) (r : Migrated × Schema D)
      → recorded execute checksum version sql s (execute sql s.contents) ≡ some s'
      → Stopped ms s' r
      → Stopped ((version, sql) ∷ ms) s r
  Stopped-cons version sql ms s s' (out, t) e (scripts, rest, split, after, all) =
      let (ran, row, _) = recorded-cases version sql s s' (execute sql s.contents) e in
      (
        (version, sql) ∷ scripts,
        rest,
        ap (λ l. (version, sql) ∷ l) split,
        record {
          contents_set = rw ran (after.contents_set);
          rows_set =
              after.rows_set
              ∙ ap (λ l. l ++ map row_of scripts) row
              ∙ append_assoc s.migrations ((version, checksum sql) ∷ []) (map row_of scripts);
        },
        all,
      )

  committed_migration-Stopped :
      (version sql : Str) (ms : List (Str × Str)) (s : Schema D)
      (next : Schema D → Migrated × Schema D)
      → ((s' : Schema D) → Stopped ms s' (next s'))
      → Stopped ((version, sql) ∷ ms) s (
          committed_migration execute checksum next version s
            (recorded execute checksum version sql s (execute sql s.contents)))
  committed_migration-Stopped version sql ms s next later =
      run (recorded execute checksum version sql s (execute sql s.contents)) refl
    where
      run :
          (o : Option (Schema D))
          → recorded execute checksum version sql s (execute sql s.contents) ≡ o
          → Stopped ((version, sql) ∷ ms) s (committed_migration execute checksum next version s o)
      run none e = Stopped-here ((version, sql) ∷ ms) s (failed version) (λ f. absurd (cc f))
      run (some s') e = Stopped-cons version sql ms s s' _ e (later s')

  apply_migrations-Stopped :
      (applied ms : List (Str × Str)) (s : Schema D)
      → Stopped (pending applied ms) s (apply_migrations execute checksum applied ms s)
  unfolding apply_migrations
  apply_migrations-Stopped applied [] s = Stopped-here [] s finished (λ _. refl)
  apply_migrations-Stopped applied ((version, sql) ∷ ms) s =
      elim (Option-cases (lookup str_eq version applied)) [
        | inl new ↦ rw new (
            committed_migration-Stopped version sql (pending applied ms) s _
              (apply_migrations-Stopped applied ms))
        | inr (old, known) ↦ rw known (elim (Bool-cases (str_eq old (checksum sql))) [
          | inl same ↦ rw same (apply_migrations-Stopped applied ms s)
          | inr other ↦
              rw other (Stopped-here (pending applied ms) s (mismatch version) (λ f. absurd (cc f)))
        ])
      ]

  -- A run ends, finished or at the first error, after some of the pending scripts from the first on,
  -- all of them if it has finished: each of those ran once, in the order of the list, and has its row
  -- in the table, and nothing is left of a script that failed.
  pub run_migrations-Stopped :
      (migrations : List (Str × Str)) (s : Schema D)
      → Stopped (pending s.migrations migrations) s (run_migrations execute checksum migrations s)
  unfolding run_migrations
  run_migrations-Stopped migrations s = apply_migrations-Stopped s.migrations migrations s

  -- What stands under a version in one table stands there in the other.
  abbrev Within : List (Str × Str) → List (Str × Str) → Type 0
  Within t u = (v c : Str) → lookup str_eq v t ≡ some c → lookup str_eq v u ≡ some c

  -- Each migration is recorded with its checksum.
  abbrev Recorded : List (Str × Str) → Schema D → Type 0
  Recorded ms s = All (λ m. lookup str_eq m.0 s.migrations ≡ some (checksum m.1)) ms

  committed_migration-Recorded :
      (applied : List (Str × Str)) (version sql : Str) (ms : List (Str × Str)) (s s' : Schema D)
      (next : Schema D → Migrated × Schema D)
      → Within applied s.migrations
      → ((t : Schema D)
          → Within applied t.migrations
          → next t ≡ (finished, s')
          → Recorded ms s' × Within t.migrations s'.migrations)
      → committed_migration execute checksum next version s
          (recorded execute checksum version sql s (execute sql s.contents))
        ≡ (finished, s')
      → Recorded ((version, sql) ∷ ms) s' × Within s.migrations s'.migrations
  committed_migration-Recorded applied version sql ms s s' next within later e =
      run (recorded execute checksum version sql s (execute sql s.contents)) refl e
    where
      run :
          (o : Option (Schema D))
          → recorded execute checksum version sql s (execute sql s.contents) ≡ o
          → committed_migration execute checksum next version s o ≡ (finished, s')
          → Recorded ((version, sql) ∷ ms) s' × Within s.migrations s'.migrations
      run none r e = absurd (cc (ap (λ (x : Migrated × Schema D). x.0) e))
      run (some t) r e =
          let (_, row, new) = recorded-cases version sql s t (execute sql s.contents) r in
          let grown : Within s.migrations t.migrations =
            λ v c h. rw row (lookup-append_some v c s.migrations _ h) in
          let own : lookup str_eq version t.migrations ≡ some (checksum sql) =
            rw row (lookup-append_new version (checksum sql) s.migrations new) in
          let (rest, kept) = later t (λ v c h. grown v c (within v c h)) e in
          ((kept version (checksum sql) own, rest), λ v c h. kept v c (grown v c h))

  apply_migrations-Recorded :
      (applied ms : List (Str × Str)) (s s' : Schema D)
      → Within applied s.migrations
      → apply_migrations execute checksum applied ms s ≡ (finished, s')
      → Recorded ms s' × Within s.migrations s'.migrations
  unfolding apply_migrations
  apply_migrations-Recorded applied [] s s' within e =
      let same : s ≡ s' = ap (λ (x : Migrated × Schema D). x.1) e in (tt, λ v c h. rw (sym same) h)
  apply_migrations-Recorded applied ((version, sql) ∷ ms) s s' within e =
      elim (Option-cases (lookup str_eq version applied)) [
        | inl new ↦
            committed_migration-Recorded applied version sql ms s s' _ within
              (λ t. apply_migrations-Recorded applied ms t s') (rw new at e)
        | inr (old, known) ↦ elim (Bool-cases (str_eq old (checksum sql))) [
          | inl same ↦
              let (rest, kept) =
                apply_migrations-Recorded applied ms s s' within (rw same at (rw known at e)) in
              let own : old ≡ checksum sql = (str_eq_iff old (checksum sql)).0 same in
              (
                (
                  kept version (checksum sql) (within version (checksum sql) (known ∙ ap some own)),
                  rest,
                ),
                kept,
              )
          | inr other ↦
              absurd (cc (ap (λ (x : Migrated × Schema D). x.0) (rw other at (rw known at e))))
        ]
      ]

  Recorded-again :
      (applied ms : List (Str × Str)) (s : Schema D)
      → All (λ m. lookup str_eq m.0 applied ≡ some (checksum m.1)) ms
      → apply_migrations execute checksum applied ms s ≡ (finished, s)
  unfolding apply_migrations
  Recorded-again applied [] s h = refl
  Recorded-again applied ((version, sql) ∷ ms) s h =
      rw (h.0) (rw (str_eq_refl (checksum sql)) (Recorded-again applied ms s h.1))

  -- A run that has finished makes the next one of the same migrations a run that changes nothing.
  pub run_migrations-again :
      (migrations : List (Str × Str)) (s s' : Schema D)
      → run_migrations execute checksum migrations s ≡ (finished, s')
      → run_migrations execute checksum migrations s' ≡ (finished, s')
  unfolding run_migrations
  run_migrations-again migrations s s' e =
      Recorded-again s'.migrations migrations s'
        ((apply_migrations-Recorded s.migrations migrations s s' (λ v c h. h) e).0)
