-- ===== src/Migrator.antt =====
-- covert-storage/src/migrator.rs: the migrations of a backend, applied when it is mounted. The scoping
-- of a script by the backend's prefix, its checksum, and the running of a script on the backend's own
-- tables are parameters; a script that fails leaves no trace, as its transaction is not committed.
pub mod Resumed
use covert.Prelude.{
  ℕ, ◌+◌, ◌&&◌, ◌||◌, not, Bool, true, false, List, [], ◌∷◌, map, Option, none, some, Str, any,
  select, str_eq, str_leb, if◌then◌else◌, leb, ltb, max, Result, ok, err, ok_or, ◌>>=◌, ◌==◌,
}
use covert.Prelude.Exec.{Exec}

-- `MigrationScript`
pub record MigrationScript : Type 0 where
  pub script : Str
  pub description : Str

-- `MigrationError`
pub data MigrationError : Type 0 where
  db bad_query : MigrationError
  script_error : (filename : Str) → MigrationError
  execution : (filename : Str) → MigrationError

-- `Migration`
pub record Migration : Type 0 where
  pub mount_id : Str
  pub version : ℕ
  pub description : Str
  pub checksum : Str

-- the table of migrations, the ids of the mounts, to which its foreign key points, and the tables of
-- the backends
pub record Store (D : Type 0) : Type 0 where
  pub applied : List Migration
  pub mounts : List Str
  pub tables : D

abbrev pub max_of : List ℕ → Option ℕ
max_of [] = none
max_of (v ∷ vs) = elim (max_of vs) [ none ↦ some v | some w ↦ some (max v w) ]

-- SELECT MAX(version) … WHERE mount_id = ?
unfoldable pub latest_version : Str → List Migration → Option ℕ
latest_version mount_id rows =
    max_of (map (λ m. m.version) (select (λ m. str_eq m.mount_id mount_id) rows))

abbrev pub is_applied : Option ℕ → ℕ → Bool
is_applied none version = false
is_applied (some last) version = leb version last

-- PRIMARY KEY(mount_id, version)
abbrev pub same_version : Str → ℕ → Migration → Bool
same_version mount_id version m = str_eq m.mount_id mount_id && m.version == version

module _ {D : Type 0} where
  -- `list_migrations`
  unfoldable pub list_migrations : Str → Store D → List Migration
  list_migrations mount_id s = select (λ m. str_eq m.mount_id mount_id) s.applied

module _ {D : Type 0} (scoped : Str → Str → Option Str) (digest : Str → Str)
    (execute : Str → D → Option D) (mount_id prefix : Str) where
  -- one round of the loop of `migrate`: the row and the script, in one transaction
  unfoldable pub apply : ℕ → MigrationScript → Exec (Store D) MigrationError (Unit {0})
  apply version migration s = elim (scoped prefix migration.script) [
    | none ↦ (err bad_query, s)
    | some sql ↦
        if any (same_version mount_id version) s.applied
          || not (any (λ id. str_eq id mount_id) s.mounts)
        then (err bad_query, s)
        else elim (execute sql s.tables) [
          | none ↦ (err db, s)
          | some tables ↦ (
            ok tt,
            record s {
              applied =
                  record {
                    mount_id = mount_id;
                    version = version;
                    description = migration.description;
                    checksum = digest sql;
                  }
                  ∷ s.applied;
              tables = tables;
            },
          )
        ]
  ]

  -- the loop of `migrate`, from a version on; the last version is that of the start
  unfoldable pub apply_from :
      Option ℕ → ℕ → List MigrationScript → Exec (Store D) MigrationError (Unit {0})
  apply_from last version [] s = (ok tt, s)
  apply_from last version (migration ∷ migrations) s = elim (is_applied last version) [
    | true ↦ apply_from last (version + 1) migrations s
    | false ↦ elim (apply version migration s).0 [
      | err e ↦ (err e, (apply version migration s).1)
      | ok done ↦ apply_from last (version + 1) migrations (apply version migration s).1
    ]
  ]

  -- `migrate`
  unfoldable pub migrate : List MigrationScript → Exec (Store D) MigrationError (Unit {0})
  unfolding apply_from latest_version
  migrate migrations s = apply_from (latest_version mount_id s.applied) 0 migrations s

abbrev pub insert_file : Str × Option Str → List (Str × Option Str) → List (Str × Option Str)
insert_file file [] = file ∷ []
insert_file file (f ∷ fs) =
    let rest = insert_file file fs in if str_leb file.0 f.0 then file ∷ f ∷ fs else f ∷ rest

abbrev pub sort_files : List (Str × Option Str) → List (Str × Option Str)
sort_files [] = []
sort_files (f ∷ fs) = insert_file f (sort_files fs)

-- the loop of `migration_scripts`; a file is its name and its bytes, if the archive has them
abbrev pub read_scripts :
    (Str → Option Str) → List (Str × Option Str) → Result MigrationError (List MigrationScript)
read_scripts from_utf8 [] = ok []
read_scripts from_utf8 ((name, none) ∷ fs) = err (script_error name)
read_scripts from_utf8 ((name, some bytes) ∷ fs) = do
  sql ← ok_or (from_utf8 bytes) (script_error name)
  rest ← read_scripts from_utf8 fs
  ok (record { script = sql; description = name } ∷ rest)

-- `migration_scripts`
unfoldable pub migration_scripts :
    (Str → Option Str) → List (Str × Option Str) → Result MigrationError (List MigrationScript)
migration_scripts from_utf8 files = read_scripts from_utf8 (sort_files files)

-- `migrate_backend`, whose scripts each commit on their own
module _ {D : Type 0} (scoped : Str → Option Str) (execute : Str → D → Option D) where
  unfoldable pub migrate_backend : List MigrationScript → Exec D MigrationError (Unit {0})
  migrate_backend [] tables = (ok tt, tables)
  migrate_backend (m ∷ ms) tables = elim (scoped m.script) [
    | none ↦ (err (execution m.description), tables)
    | some sql ↦ elim (execute sql tables) [
      | none ↦ (err (execution m.description), tables)
      | some changed ↦ migrate_backend ms changed
    ]
  ]
